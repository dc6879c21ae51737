-- ===== src/Auth/Issued.antt =====
-- The pair of tokens that a sign-in hands out.
use ats_onework.Prelude.{
  ℕ, ◌+◌, String, Bool, true, false, Option, none, some, List, [], ◌∷◌, ◌++◌, ◌≡◌, refl, ◌⊎◌, inl,
  inr, ◌==◌, leb, find, is_some, select, All, Memᴰ, Bool-cases, arith,
}
use mathlib.Core.List.Memᴰ.{head, tail}
use ats_onework.Exec.{ok, ◌>>◌}
use ats_onework.Exec.Inversion.{pure-eq-ok}
use ats_onework.Constants.{TokenPurpose}
use ats_onework.Schema.{Db, Membership, Organization, AuthenticationToken}
use ats_onework.Permissions.Holds.{IsSeat}
use ats_onework.Auth.Libraries.{Libraries, Draw}
use ats_onework.Auth.Repository.{
  OrganizationSummary, has_hash, insert_token, update_last_login, update_password_hash,
  list_memberships, insert_asc, join_organization, join_all,
}
use ats_onework.Auth.Service.{TokenPair, default_org, rehash, store_refresh, issue_pair}

abbrev IsOf : ℕ → Db → OrganizationSummary → Type 0
IsOf employee d s = IsSeat employee s.organization_id s.is_admin d

insert_asc-All :
    (P : OrganizationSummary → Type 0) (s : OrganizationSummary) (xs : List OrganizationSummary)
    → P s
    → All P xs
    → All P (insert_asc s xs)
insert_asc-All P s [] h all = (h, tt)
insert_asc-All P s (x ∷ xs) h all = elim (Bool-cases (leb s.organization_id x.organization_id)) [
  | inl e ↦ rw e (h, all)
  | inr e ↦ rw e (all.0, insert_asc-All P s xs h all.1)
]

join-All :
    (P : OrganizationSummary → Type 0) (m : Membership) (o : Option Organization)
    (rest : List OrganizationSummary)
    → ((name slug : String)
        → P (record {
          organization_id = m.organization_id;
          is_admin = m.is_admin;
          name = name;
          slug = slug;
        }))
    → All P rest
    → All P (join_organization m o rest)
join-All P m none rest h all = all
join-All P m (some o) rest h all = insert_asc-All P _ rest (h o.name o.slug) all

-- The memberships among `rows` are rows of the table.
abbrev Inside : Db → List Membership → Type 0
Inside d rows = All (λ m. Memᴰ m d.memberships.rows) rows

summaries-All :
    (employee : ℕ) (d : Db) (rows : List Membership)
    → Inside d rows
    → All
        (IsOf employee d)
        (join_all d.organizations.rows (select (λ m. m.employee_id == employee) rows))
summaries-All employee d [] inside = tt
summaries-All employee d (m ∷ rows) inside =
    let rest = summaries-All employee d rows inside.1 in
    elim (Bool-cases (m.employee_id == employee)) [
      | inr e ↦ rw e rest
      | inl e ↦ rw e (
          join-All (IsOf employee d) m
            (find (λ o. o.organization_id == m.organization_id) d.organizations.rows) _
            (λ name slug. record {
              membership = m;
              is_row = inside.0;
              of_employee = ground (arith, e);
              of_organization = refl;
              as_admin = refl;
            })
            rest)
    ]

Mem-All :
    (P : Membership → Type 0) (rows : List Membership)
    → ((m : Membership) → Memᴰ m rows → P m)
    → All P rows
Mem-All P [] h = tt
Mem-All P (m ∷ rows) h = (h m (head refl), Mem-All P rows (λ x inside. h x (tail inside)))

-- The organization of the claims: none is spelled as 0.
abbrev IsPlaced : ℕ → ℕ × Bool → Db → Type 0
IsPlaced employee place d = ((place.0 ≡ 0) × (place.1 ≡ false)) ⊎ IsSeat employee place.0 place.1 d

default_org-IsPlaced :
    (employee : ℕ) (d : Db) (ss : List OrganizationSummary)
    → All (IsOf employee d) ss
    → IsPlaced employee (default_org ss) d
default_org-IsPlaced employee d [] all = inl (refl, refl)
default_org-IsPlaced employee d (s ∷ ss) all = inr all.0

-- What a pair of tokens for the employee is, and what its issue added to the tokens.
pub record Issued (lib : Libraries) (employee : ℕ) (draw : Draw) (d d' : Db) (p : TokenPair)
    : Type 0 where
  pub of_employee : p.access_token.employee_id ≡ employee
  pub place : IsPlaced employee (p.access_token.organization_id, p.access_token.is_admin) d
  pub drawn : p.refresh_token ≡ draw.token
  pub token : AuthenticationToken
  pub added : d'.authentication_tokens.rows ≡ d.authentication_tokens.rows ++ token ∷ []
  pub of_token : token.employee_id ≡ employee
  pub hashed : token.token_hash ≡ lib.hash_token draw.token
  pub purpose : token.purpose ≡ TokenPurpose.refresh
  pub expires : token.expires_at ≡ d.now + lib.refresh_token_lifetime
  pub unrevoked : token.revoked_at ≡ none
  pub unreplaced : token.replaced_by_token_id ≡ none

module _ (lib : Libraries) (employee : ℕ) (draw : Draw) where
  issue_pair-Issued :
      (d : Db) {p : TokenPair} {d' : Db}
      → issue_pair lib employee true draw d ≡ (ok p, d')
      → Issued lib employee draw d d' p
  unfolding issue_pair store_refresh insert_token update_last_login list_memberships
  issue_pair-Issued d {p} {d'} h =
      let taken =
        is_some (find (has_hash (lib.hash_token draw.token)) d.authentication_tokens.rows) in
      elim (Bool-cases taken) [
        | inl e ↦ absurd (cc (rw e at h))
        | inr e ↦
            let (is_p, is_d') = pure-eq-ok (rw e at h) in
            rw (is_p, is_d')
              (record {
                of_employee = refl;
                place = default_org-IsPlaced employee d _ (
                    summaries-All employee d d.memberships.rows
                      (Mem-All _ d.memberships.rows (λ m inside. inside)));
                drawn = refl;
                token = _;
                added = refl;
                of_token = refl;
                hashed = refl;
                purpose = refl;
                expires = refl;
                unrevoked = refl;
                unreplaced = refl;
              })
      ]

  pub rehash-Issued :
      (new_hash : Option String) (d : Db) {p : TokenPair} {d' : Db}
      → (rehash employee new_hash >> issue_pair lib employee true draw) d ≡ (ok p, d')
      → Issued lib employee draw d d' p
  unfolding update_password_hash
  rehash-Issued none d h = issue_pair-Issued d h
  rehash-Issued (some hash) d {p} {d'} h =
      let i = issue_pair-Issued _ h in
      record {
        of_employee = i.of_employee;
        place = elim i.place [
          | inl outside ↦ inl outside
          | inr s ↦ inr (record {
            membership = s.membership;
            is_row = s.is_row;
            of_employee = s.of_employee;
            of_organization = s.of_organization;
            as_admin = s.as_admin;
          })
        ];
        drawn = i.drawn;
        token = i.token;
        added = i.added;
        of_token = i.of_token;
        hashed = i.hashed;
        purpose = i.purpose;
        expires = i.expires;
        unrevoked = i.unrevoked;
        unreplaced = i.unreplaced;
      }
