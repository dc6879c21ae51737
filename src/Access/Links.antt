-- ===== src/Access/Links.antt =====
-- What the replacement of a holder's grants leaves in a table of grants: `role_permissions` and
-- `user_permissions` alike.
use ats_onework.Prelude.{
  ℕ, String, Bool, true, false, Option, none, some, List, [], ◌∷◌, map, ◌≡◌, refl, sym, ap, ◌∙◌,
  ◌&&◌, ◌||◌, not, ◌==◌, ==-refl, find, select, delete, any, is_value, All, All-delete, any-select,
  any-delete, any-false, any-All, any-map, All-of, find-own, Distinct, Bool-cases, inl, inr, arith,
}
use ats_onework.Schema.{Permission}
use ats_onework.Access.Grants.{Grants, organization_named, named}
use ats_onework.Access.Inserts.{any-insert_all, insert_all-All, select-insert_all}
use ats_onework.Access.Repository.{insert_all, among, add_name, names_of, asked_for}

any-add_name :
    (t : String → Bool) (o : Option Permission) (rest : List String)
    → any t (add_name o rest) ≡ (named t o || any t rest)
any-add_name t none rest = refl
any-add_name t (some p) rest = refl

module _ (permissions : List Permission) where
  abbrev by_id : ℕ → Option Permission
  by_id id = find (λ p. p.permission_id == id) permissions

  any-names_of :
      (t : String → Bool) (ids : List ℕ)
      → any t (names_of permissions ids) ≡ any (λ id. named t (by_id id)) ids
  unfolding names_of
  any-names_of t [] = refl
  any-names_of t (id ∷ ids) =
      any-add_name t (by_id id) (names_of permissions ids)
      ∙ ap (λ b. named t (by_id id) || b) (any-names_of t ids)

  module _ {A : Type 0} (g : Grants A) where
    -- The composite foreign key: a grant refers to a capability of its own organization.
    abbrev pub IsLinked : A → Type 0
    IsLinked x = organization_named (by_id (g.permission_of x)) ≡ g.organization_of x

    abbrev pub is_held : ℕ → ℕ → A → Bool
    is_held org holder x = is_value (g.organization_of x) org && g.holder_of x == holder

    abbrev pub same : A → A → Bool
    same x y = g.holder_of x == g.holder_of y && g.permission_of x == g.permission_of y

    abbrev pub counts : ℕ → ℕ → (String → Bool) → A → Bool
    counts org holder t x = is_held org holder x && named t (by_id (g.permission_of x))

    same-counts :
        (org holder : ℕ) (t : String → Bool) (x y : A)
        → IsLinked x
        → IsLinked y
        → same x y ≡ true
        → counts org holder t x ≡ counts org holder t y
    same-counts org holder t x y hx hy h =
        let hp : g.permission_of x ≡ g.permission_of y = ground arith in
        let hh : g.holder_of x ≡ g.holder_of y = ground arith in
        let ho : g.organization_of x ≡ g.organization_of y =
          sym hx ∙ ap (λ k. organization_named (by_id k)) hp ∙ hy in
        rw (hp, hh, ho) refl

    -- The rows after the holder's grants were replaced by those of `names`.
    abbrev pub replaced : ℕ → ℕ → List String → List A → List A
    replaced org holder names rows =
        insert_all same (map (g.grant org holder) (asked_for org names permissions))
          (delete (is_held org holder) rows)

    -- The names that the holder's grants stand for.
    abbrev pub granted : ℕ → ℕ → List A → List String
    granted org holder rows =
        names_of permissions (map g.permission_of (select (is_held org holder) rows))

    -- Among the capabilities of the organization, one that is asked for satisfies `t`.
    abbrev asked_and : ℕ → List String → (String → Bool) → Permission → Bool
    asked_and org names t p = (p.organization_id == org && among names p.api_name) && t p.api_name

    pub any-granted :
        (org holder : ℕ) (t : String → Bool) (rows : List A)
        → any t (granted org holder rows) ≡ any (counts org holder t) rows
    any-granted org holder t rows =
        any-names_of t (map g.permission_of (select (is_held org holder) rows))
        ∙ any-map (λ id. named t (by_id id)) g.permission_of (select (is_held org holder) rows)
        ∙ any-select (λ x. named t (by_id (g.permission_of x))) (is_held org holder) rows

    deleted-none :
        (org holder : ℕ) (t : String → Bool) (rows : List A)
        → any (counts org holder t) (delete (is_held org holder) rows) ≡ false
    deleted-none org holder t rows =
        any-delete (counts org holder t) (is_held org holder) rows
        ∙ any-false (λ x. not (is_held org holder x) && counts org holder t x) rows
            (All-of _ rows (λ x. ground arith))

    grant-counts :
        (org holder : ℕ) (t : String → Bool) (p : Permission)
        → by_id p.permission_id ≡ some p
        → counts org holder t (g.grant org holder p) ≡ t p.api_name
    grant-counts org holder t p found =
        rw
          (
            g.grant-holder org holder p,
            g.grant-permission org holder p,
            g.grant-organization org holder p,
            ==-refl org,
            ==-refl holder,
            found,
          )
          refl

    any-asked :
        (org holder : ℕ) (names : List String) (t : String → Bool) (ps : List Permission)
        → All (λ p. by_id p.permission_id ≡ some p) ps
        → any (λ p. counts org holder t (g.grant org holder p)) (asked_for org names ps)
          ≡ any (asked_and org names t) ps
    any-asked org holder names t ps own =
        any-select (λ p. counts org holder t (g.grant org holder p))
          (λ p. p.organization_id == org && among names p.api_name) ps
        ∙ any-All _ (asked_and org names t) ps (each ps own)
      where
        each :
            (qs : List Permission)
            → All (λ p. by_id p.permission_id ≡ some p) qs
            → All
                (λ p.
                  ((p.organization_id == org && among names p.api_name)
                    && counts org holder t (g.grant org holder p))
                  ≡ asked_and org names t p)
                qs
        each [] h = tt
        each (p ∷ qs) h = (
          ap (λ b. (p.organization_id == org && among names p.api_name) && b)
              (grant-counts org holder t p h.0),
          each qs h.1,
        )

    asked-IsLinked :
        (org holder : ℕ) (names : List String) (ps : List Permission)
        → All (λ p. by_id p.permission_id ≡ some p) ps
        → All IsLinked (map (g.grant org holder) (asked_for org names ps))
    asked-IsLinked org holder names [] own = tt
    asked-IsLinked org holder names (p ∷ ps) own =
        let rest = asked-IsLinked org holder names ps own.1 in
        elim (Bool-cases (p.organization_id == org && among names p.api_name)) [
          | inr e ↦ rw e rest
          | inl e ↦
              let here : p.organization_id ≡ org = ground (arith, e) in
              rw e (
                rw (g.grant-permission org holder p, g.grant-organization org holder p, own.0, here)
                    refl,
                rest,
              )
        ]

    module _ (keys : Distinct (λ p. p.permission_id) permissions) where
      -- The names that the holder has afterwards, under any test.
      pub any-replaced :
          (org holder : ℕ) (names : List String) (t : String → Bool) (rows : List A)
          → All IsLinked rows
          → any t (granted org holder (replaced org holder names rows))
            ≡ any (asked_and org names t) permissions
      any-replaced org holder names t rows linked =
          let own = find-own (λ p. p.permission_id) permissions keys in
          let new = map (g.grant org holder) (asked_for org names permissions) in
          let old = delete (is_held org holder) rows in
          let both =
            any-insert_all same IsLinked (counts org holder t) (same-counts org holder t) new old
              (asked-IsLinked org holder names permissions own)
              (All-delete IsLinked (is_held org holder) rows linked) in
          let given =
            any-map (counts org holder t) (g.grant org holder) (asked_for org names permissions)
            ∙ any-asked org holder names t permissions own in
          any-granted org holder t (replaced org holder names rows)
          ∙ both
          ∙ ap (λ b. b || any (counts org holder t) new) (deleted-none org holder t rows)
          ∙ given

      pub replaced-IsLinked :
          (org holder : ℕ) (names : List String) (rows : List A)
          → All IsLinked rows
          → All IsLinked (replaced org holder names rows)
      replaced-IsLinked org holder names rows linked =
          insert_all-All same IsLinked _ _
            (asked-IsLinked org holder names permissions
              (find-own (λ p. p.permission_id) permissions keys))
            (All-delete IsLinked (is_held org holder) rows linked)

    -- The rows of another holder, or of another organization, are selected as before.
    delete-other :
        (org holder o h : ℕ) (rows : List A)
        → (o == org && h == holder) ≡ false
        → select (is_held o h) (delete (is_held org holder) rows) ≡ select (is_held o h) rows
    delete-other org holder o h [] other = refl
    delete-other org holder o h (x ∷ rows) other =
        let rest = delete-other org holder o h rows other in ground (arith, rest)

    new-other :
        (org holder o h : ℕ) (ps : List Permission)
        → (o == org && h == holder) ≡ false
        → All (λ x. is_held o h x ≡ false) (map (g.grant org holder) ps)
    new-other org holder o h [] other = tt
    new-other org holder o h (p ∷ ps) other = (
      rw (g.grant-holder org holder p, g.grant-organization org holder p) (ground arith),
      new-other org holder o h ps other,
    )

    pub granted-other :
        (org holder o h : ℕ) (names : List String) (rows : List A)
        → (o == org && h == holder) ≡ false
        → granted o h (replaced org holder names rows) ≡ granted o h rows
    granted-other org holder o h names rows other =
        let new = map (g.grant org holder) (asked_for org names permissions) in
        ap (λ xs. names_of permissions (map g.permission_of xs))
          (select-insert_all same (is_held o h) new (delete (is_held org holder) rows)
              (new-other org holder o h (asked_for org names permissions) other)
            ∙ delete-other org holder o h rows other)
