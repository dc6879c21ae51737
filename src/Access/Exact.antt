-- ===== src/Access/Exact.antt =====
-- What `set_role_grants` and `set_member_permissions` leave behind.
use ats_onework.Prelude.{
  ℕ, String, Bool, true, false, some, List, [], ◌∷◌, ◌≡◌, refl, sym, ap, subst, ◌∙◌, ◌&&◌, ◌==◌,
  is_some, find, any, All, Distinct, any-eq, any-is_some, Bool-cases, inl, inr, arith,
}
use ats_onework.Prelude.Text.{text_eq, text_eq_refl, text_eq_sound}
use ats_onework.Exec.{Exec, Error, ok, gets, or_raise, ◌>>=◌, ◌>>◌}
use ats_onework.Exec.Frame.{Leaves, leaves_rules}
use ats_onework.Exec.Inversion.{pure-eq-ok, >>=-eq-ok, or_raise-bind-eq-ok}
use ats_onework.Schema.{Db, Permission, RolePermission, UserPermission}
use ats_onework.Tenant.Guards.{require_admin-Leaves}
use ats_onework.Audit.{log}
use ats_onework.Access.Order.{order_by}
use ats_onework.Access.Repository.{
  among, get_permission, is_capability, get_role, replace_role_grants, role_grant, direct_grant,
}
use ats_onework.Access.Grants.{Grants, any-order_by}
use ats_onework.Access.Links.{IsLinked, replaced, any-replaced, replaced-IsLinked, granted-other}
use ats_onework.Access.Lists.{list_role_grants}
use ats_onework.Access.Service.{access_admin, replace_grants, set_role_grants}

abbrev pub role_table : Grants RolePermission
role_table = record {
  holder_of = λ x. x.role_id;
  permission_of = λ x. x.permission_id;
  organization_of = λ x. some x.organization_id;
  grant = role_grant;
  grant-holder = λ o h p. refl;
  grant-permission = λ o h p. refl;
  grant-organization = λ o h p. refl;
}

abbrev pub direct_table : Grants UserPermission
direct_table = record {
  holder_of = λ x. x.employee_id;
  permission_of = λ x. x.permission_id;
  organization_of = λ x. x.organization_id;
  grant = direct_grant;
  grant-holder = λ o h p. refl;
  grant-permission = λ o h p. refl;
  grant-organization = λ o h p. refl;
}

text_eq_sym : (a b : String) → text_eq a b ≡ text_eq b a
text_eq_sym a b = elim (Bool-cases (text_eq a b)) [
  | inl e ↦ subst (λ x. text_eq a x ≡ text_eq x a) (text_eq_sound a b e) refl
  | inr e ↦ elim (Bool-cases (text_eq b a)) [
    | inr f ↦ e ∙ sym f
    | inl f ↦ subst (λ x. text_eq x b ≡ text_eq b x) (text_eq_sound b a f) refl
  ]
]

any-and :
    {A : Type 0} (c : Bool) (p : A → Bool) (xs : List A) → any (λ x. c && p x) xs ≡ (c && any p xs)
any-and c p [] = ground arith
any-and c p (x ∷ xs) = ground (arith, any-and c p xs)

asked-name :
    (org : ℕ) (names : List String) (n : String) (p : Permission)
    → ((p.organization_id == org && among names p.api_name) && text_eq n p.api_name)
      ≡ (among names n && is_capability org n p)
asked-name org names n p = elim (Bool-cases (text_eq n p.api_name)) [
  | inl e ↦
      let same = text_eq_sound n p.api_name e in
      subst
        (λ m.
          ((p.organization_id == org && among names m) && text_eq n m)
          ≡ (among names n && (p.organization_id == org && text_eq m n)))
        same (rw (text_eq_refl n) (ground arith))
  | inr e ↦ rw (sym (text_eq_sym n p.api_name), e) (ground arith)
]

-- Exactly the names that are asked for and that the organization has.
pub exactly :
    (org : ℕ) (names : List String) (n : String) (ps : List Permission)
    → any (λ p. (p.organization_id == org && among names p.api_name) && text_eq n p.api_name) ps
      ≡ (among names n && is_some (find (is_capability org n) ps))
exactly org names n ps =
    any-eq _ (λ p. among names n && is_capability org n p) ps (asked-name org names n)
    ∙ any-and (among names n) (is_capability org n) ps
    ∙ ap (λ b. among names n && b) (any-is_some (is_capability org n) ps)

pub access_admin-Leaves :
    {T : Type 0} (part : Db → T) (actor org : ℕ) (is_superuser : Bool)
    → Leaves part (access_admin actor org is_superuser)
unfolding access_admin
access_admin-Leaves part actor org true = search leaves_rules
access_admin-Leaves part actor org false = search (leaves_rules, require_admin-Leaves)

module _ (collates : String → String → Bool) where
  -- The grants of a role before and after they were set to `names`.
  pub record GrantsSet (org role : ℕ) (names after : List String) (d d' : Db) : Type 0 where
    pub exact : (n : String) → among after n ≡ (among names n && is_some (get_permission org n d))
    pub read_back : list_role_grants collates org role d' ≡ after
    pub others :
        (o r : ℕ)
        → (o == org && r == role) ≡ false
        → list_role_grants collates o r d' ≡ list_role_grants collates o r d
    pub linked : All (IsLinked d'.permissions.rows role_table) d'.role_permissions

  replaced-GrantsSet :
      (org role : ℕ) (names : List String) (d d' : Db)
      → Distinct (λ p. p.permission_id) d.permissions.rows
      → All (IsLinked d.permissions.rows role_table) d.role_permissions
      → d'.permissions ≡ d.permissions
      → d'.role_permissions
        ≡ replaced d.permissions.rows role_table org role names d.role_permissions
      → GrantsSet org role names (list_role_grants collates org role d') d d'
  unfolding list_role_grants get_permission
  replaced-GrantsSet org role names d d' keys linked same grants =
      let ps = d.permissions.rows in
      rw (same, grants)
        (record {
          exact = λ n.
              any-order_by (text_eq n) collates _
              ∙ any-replaced ps role_table keys org role names (text_eq n) d.role_permissions linked
              ∙ exactly org names n ps;
          read_back = refl;
          others = λ o r other.
              ap (order_by collates)
                (granted-other ps role_table org role o r names d.role_permissions other);
          linked = replaced-IsLinked ps role_table keys org role names d.role_permissions linked;
        })

  replace_grants-GrantsSet :
      (actor org role : ℕ) (names : List String) (d : Db) {after : List String} {d' : Db}
      → Distinct (λ p. p.permission_id) d.permissions.rows
      → All (IsLinked d.permissions.rows role_table) d.role_permissions
      → replace_grants collates actor org role names d ≡ (ok after, d')
      → GrantsSet org role names after d d'
  unfolding replace_grants replace_role_grants log list_role_grants
  replace_grants-GrantsSet actor org role names d {after} {d'} keys linked h =
      let (is_after, is_d') = pure-eq-ok h in
      let done : Db = (replace_grants collates actor org role names d).1 in
      subst (λ a. GrantsSet org role names a d d') (sym is_after)
        (subst (λ s. GrantsSet org role names (list_role_grants collates org role done) d s)
          (sym is_d') (replaced-GrantsSet org role names d done keys linked refl refl))

  -- If every grant of a role refers to a capability of its organization and the keys of the
  -- capabilities are distinct, then after `set_role_grants` returns, the role grants exactly the
  -- names that were asked for and that the organization has; the result is what a reading of the
  -- role's grants returns; the grants of every other role, and of every other organization, read as
  -- before; and every grant of a role still refers to a capability of its organization.
  pub set_role_grants_exact :
      (actor org role : ℕ) (names : List String) (is_superuser : Bool) (d : Db)
      (after : List String) (d' : Db)
      → Distinct (λ p. p.permission_id) d.permissions.rows
      → All (IsLinked d.permissions.rows role_table) d.role_permissions
      → set_role_grants collates actor org role names is_superuser d ≡ (ok after, d')
      → GrantsSet org role names after d d'
  unfolding set_role_grants
  set_role_grants_exact actor org role names is_superuser d after d' keys linked h =
      let replace = replace_grants collates actor org role names in
      let rest : Exec Db (List String) =
        gets (get_role org role) >>= λ found. or_raise found Error.not_found >> replace in
      let (u, d0, guarded, h1) = >>=-eq-ok (access_admin actor org is_superuser) (λ _. rest) d h in
      let same : d0 ≡ d =
        rw guarded at ((access_admin-Leaves (λ x. x) actor org is_superuser).at d) in
      let h2 : rest d ≡ (ok after, d') = subst (λ x. rest x ≡ (ok after, d')) same h1 in
      let (r, found, h3) =
        or_raise-bind-eq-ok (get_role org role d) Error.not_found (λ _. replace) d h2 in
      replace_grants-GrantsSet actor org role names d keys linked h3
