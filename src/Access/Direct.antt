-- ===== src/Access/Direct.antt =====
-- What `set_member_permissions` leaves behind, and that the capabilities it grants are held.
use ats_onework.Prelude.{
  ℕ, String, Bool, true, false, some, List, ◌≡◌, refl, sym, ap, subst, ◌∙◌, ◌&&◌, ◌||◌, ◌==◌,
  is_some, find, find_sound, is_value, select, any, any-map, any-select, any-find, any-is_some, All,
  All-find, Distinct, Option-cases, inl, inr, arith,
}
use ats_onework.Prelude.Text.{text_eq}
use ats_onework.Exec.{Exec, ok, gets, ◌>>=◌, ◌>>◌}
use ats_onework.Exec.Frame.{Leaves, leaves_rules}
use ats_onework.Exec.Inversion.{pure-eq-ok, >>=-eq-ok}
use ats_onework.Schema.{Db, Permission, Membership, UserPermission}
use ats_onework.Audit.{log}
use ats_onework.Permissions.{granted_by_role, granted_directly, granted_permissions, has_permission}
use ats_onework.Access.Order.{order_by}
use ats_onework.Access.Repository.{among, get_permission, replace_user_grants}
use ats_onework.Access.Grants.{any-order_by, organization_named}
use ats_onework.Access.Links.{
  IsLinked, counts, replaced, any-granted, any-replaced, replaced-IsLinked, granted-other,
}
use ats_onework.Access.Lists.{list_user_grants}
use ats_onework.Access.Service.{
  MemberAccessResponse, access_admin, membership_of, member_access, replace_direct,
  get_member_access, set_member_permissions,
}
use ats_onework.Access.Exact.{direct_table, exactly, access_admin-Leaves}

-- A grant that counts is held.
counted-held :
    (org employee : ℕ) (n : String) (d : Db) (up : UserPermission) (p : Permission)
    → IsLinked d.permissions.rows direct_table up
    → find (counts d.permissions.rows direct_table org employee (text_eq n)) d.user_permissions
      ≡ some up
    → find (λ q. q.permission_id == up.permission_id) d.permissions.rows ≡ some p
    → text_eq n p.api_name ≡ true
    → (is_value up.organization_id org && up.employee_id == employee) ≡ true
    → has_permission employee org n d ≡ true
unfolding has_permission granted_permissions granted_directly
counted-held org employee n d up p linked counted by_id hit own =
    let ps = d.permissions.rows in
    let q = counts ps direct_table org employee (text_eq n) in
    let key : (p.permission_id == up.permission_id) ≡ true =
      find_sound (λ x. x.permission_id == up.permission_id) ps by_id in
    let named_org : some p.organization_id ≡ up.organization_id =
      ap organization_named (sym by_id) ∙ linked in
    let own' : (is_value (some p.organization_id) org && up.employee_id == employee) ≡ true =
      subst (λ o. (is_value o org && up.employee_id == employee) ≡ true) (sym named_org) own in
    let here : (p.organization_id == org) ≡ true = ground (arith, own') in
    let direct : granted_directly employee org p.permission_id d ≡ true =
      any-find q
        (λ (x : UserPermission).
          (x.employee_id == employee && is_value x.organization_id org)
          && x.permission_id == p.permission_id)
        d.user_permissions counted (ground (arith, own, key)) in
    let holds : Permission → Bool = λ x.
      x.organization_id == org
      && (granted_by_role employee org x.permission_id d
          || granted_directly employee org x.permission_id d) in
    any-map (text_eq n) (λ x. x.api_name) (select holds ps)
    ∙ any-select (λ x. text_eq n x.api_name) holds ps
    ∙ any-find (λ x. x.permission_id == up.permission_id) (λ x. holds x && text_eq n x.api_name) ps
        by_id (ground (arith, here, direct, hit))

held-of_any :
    (org employee : ℕ) (n : String) (d : Db)
    → All (IsLinked d.permissions.rows direct_table) d.user_permissions
    → any (counts d.permissions.rows direct_table org employee (text_eq n)) d.user_permissions
      ≡ true
    → has_permission employee org n d ≡ true
held-of_any org employee n d linked h =
    let q = counts d.permissions.rows direct_table org employee (text_eq n) in
    elim (Option-cases (find q d.user_permissions)) [
      | inl e ↦ absurd (cc (sym (any-is_some q d.user_permissions) ∙ h, ap is_some e))
      | inr (up, found) ↦
          let sound = find_sound q d.user_permissions found in
          elim (Option-cases (find (λ p. p.permission_id == up.permission_id) d.permissions.rows)) [
            | inl e ↦ let s = rw e at sound in absurd (ground (arith, s))
            | inr (p, by_id) ↦
                let s = rw by_id at sound in
                counted-held org employee n d up p
                  (All-find (IsLinked d.permissions.rows direct_table) q d.user_permissions linked
                    found)
                  found by_id (ground (arith, s)) (ground (arith, s))
          ]
    ]

membership_of-Leaves :
    {T : Type 0} (part : Db → T) (employee org : ℕ) → Leaves part (membership_of employee org)
unfolding membership_of
membership_of-Leaves part employee org = search leaves_rules

-- What succeeds after a computation that leaves the tables alone succeeds on the tables as they were.
after-Leaves :
    {A B : Type 0} (m : Exec Db A) (k : A → Exec Db B) (d : Db) {b : B} {d' : Db}
    → Leaves (λ x. x) m
    → (m >>= k) d ≡ (ok b, d')
    → (a : A) × (k a d ≡ (ok b, d'))
after-Leaves m k d {b} {d'} leaves h =
    let (a, d0, first, rest) = >>=-eq-ok m k d h in
    let same : d0 ≡ d = rw first at (leaves.at d) in (a, subst (λ x. k a x ≡ (ok b, d')) same rest)

module _ (collates : String → String → Bool) where
  -- The direct grants of a person before and after they were set to `names`.
  pub record DirectSet (org employee : ℕ) (names after : List String) (d d' : Db) : Type 0 where
    pub exact : (n : String) → among after n ≡ (among names n && is_some (get_permission org n d))
    pub read_back : list_user_grants collates org employee d' ≡ after
    pub held : (n : String) → among after n ≡ true → has_permission employee org n d' ≡ true
    pub others :
        (o e : ℕ)
        → (o == org && e == employee) ≡ false
        → list_user_grants collates o e d' ≡ list_user_grants collates o e d

  replaced-DirectSet :
      (org employee : ℕ) (names : List String) (d d' : Db)
      → Distinct (λ p. p.permission_id) d.permissions.rows
      → All (IsLinked d.permissions.rows direct_table) d.user_permissions
      → d'.permissions ≡ d.permissions
      → d'.user_permissions
        ≡ replaced d.permissions.rows direct_table org employee names d.user_permissions
      → DirectSet org employee names (list_user_grants collates org employee d') d d'
  unfolding list_user_grants get_permission
  replaced-DirectSet org employee names d d' keys linked same grants =
      let ps = d.permissions.rows in
      let ps' = d'.permissions.rows in
      let after =
        replaced-IsLinked ps direct_table keys org employee names d.user_permissions linked in
      let linked' : All (IsLinked ps' direct_table) d'.user_permissions = rw (same, grants) after in
      record {
        exact = λ n.
            rw (same, grants)
              (any-order_by (text_eq n) collates _
                ∙ any-replaced ps direct_table keys org employee names (text_eq n)
                    d.user_permissions linked
                ∙ exactly org names n ps);
        read_back = refl;
        held = λ n h. held-of_any org employee n d' linked' (
            sym (any-granted ps' direct_table org employee (text_eq n) d'.user_permissions)
            ∙ sym (any-order_by (text_eq n) collates _)
            ∙ h);
        others = λ o e other.
            rw (same, grants)
              (ap (order_by collates)
                (granted-other ps direct_table org employee o e names d.user_permissions other));
      }

  replace_direct-DirectSet :
      (actor org employee : ℕ) (names : List String) (d : Db) {d' : Db}
      → Distinct (λ p. p.permission_id) d.permissions.rows
      → All (IsLinked d.permissions.rows direct_table) d.user_permissions
      → replace_direct collates actor org employee names d ≡ (ok tt, d')
      → DirectSet org employee names (list_user_grants collates org employee d') d d'
  unfolding replace_direct replace_user_grants log
  replace_direct-DirectSet actor org employee names d {d'} keys linked h =
      replaced-DirectSet org employee names d d' keys linked (ap (λ x. x.1.permissions) (sym h))
        (ap (λ x. x.1.user_permissions) (sym h))

  get_member_access-reads :
      (actor org employee : ℕ) (is_superuser : Bool) (d : Db) {r : MemberAccessResponse} {d' : Db}
      → get_member_access collates actor org employee is_superuser d ≡ (ok r, d')
      → (r.direct_permissions ≡ list_user_grants collates org employee d) × (d' ≡ d)
  unfolding get_member_access
  get_member_access-reads actor org employee is_superuser d h =
      let reading = λ (m : Membership). gets (member_access collates employee org m) in
      let (_, h1) =
        after-Leaves (access_admin actor org is_superuser)
          (λ _. membership_of employee org >>= reading) d
          (access_admin-Leaves (λ x. x) actor org is_superuser) h in
      let (m, h2) =
        after-Leaves (membership_of employee org) reading d
          (membership_of-Leaves (λ x. x) employee org) h1 in
      let (is_r, is_d') = pure-eq-ok h2 in (ap (λ x. x.direct_permissions) is_r, is_d')

  -- If every direct grant refers to a capability of its organization and the keys of the
  -- capabilities are distinct, then after `set_member_permissions` returns, the direct grants of the
  -- member are exactly the names that were asked for and that the organization has; the result lists
  -- them as a reading of the grants does; the member holds each of them; and the direct grants of
  -- everyone else, and of the member in other organizations, read as before.
  pub set_member_permissions_exact :
      (actor org employee : ℕ) (names : List String) (is_superuser : Bool) (d : Db)
      (r : MemberAccessResponse) (d' : Db)
      → Distinct (λ p. p.permission_id) d.permissions.rows
      → All (IsLinked d.permissions.rows direct_table) d.user_permissions
      → set_member_permissions collates actor org employee names is_superuser d ≡ (ok r, d')
      → DirectSet org employee names r.direct_permissions d d'
  unfolding set_member_permissions
  set_member_permissions_exact actor org employee names is_superuser d r d' keys linked h =
      let read = get_member_access collates actor org employee is_superuser in
      let replace = replace_direct collates actor org employee names in
      let (_, h1) =
        after-Leaves (access_admin actor org is_superuser)
          (λ _. membership_of employee org >> (replace >> read)) d
          (access_admin-Leaves (λ x. x) actor org is_superuser) h in
      let (_, h2) =
        after-Leaves (membership_of employee org) (λ _. replace >> read) d
          (membership_of-Leaves (λ x. x) employee org) h1 in
      let (_, d2, replaced_in, h3) = >>=-eq-ok replace (λ _. read) d h2 in
      let (is_after, same) = get_member_access-reads actor org employee is_superuser d2 h3 in
      let set : DirectSet org employee names (list_user_grants collates org employee d2) d d2 =
        replace_direct-DirectSet actor org employee names d keys linked replaced_in in
      subst (λ a. DirectSet org employee names a d d') (sym is_after)
        (subst (λ s. DirectSet org employee names (list_user_grants collates org employee d2) d s)
          (sym same) set)
