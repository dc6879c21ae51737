-- ===== src/Organizations/Admins.antt =====
-- An organization keeps an administrator.
use ats_onework.Prelude.{
  ℕ, ◌≤◌, String, Bool, false, Option, none, some, List, [], ◌∷◌, ◌≡◌, subst, ◌∙◌, ◌&&◌, ◌==◌, leb,
  find, find_sound, delete, count, count-append, count-append-le, count-delete, count-both-le,
  count-both-lt, find_same, Bool-cases, Option-cases, inl, inr, arith,
}
use ats_onework.Exec.{Exec, Error, gets, or_raise, ◌>>=◌, ◌>>◌}
use ats_onework.Exec.Keeps.{
  Keeps, Keeps-part, Keeps-bind, Keeps-then, Keeps-gets, Keeps-or_raise, keeps_rules,
}
use ats_onework.Exec.Inversion.{guard_cases}
use ats_onework.Schema.{Db, Piece, Message, Membership, Role, Table, insert_row}
use ats_onework.Tenant.{get_membership, require_admin}
use ats_onework.Tenant.Guards.{require_admin-Leaves}
use ats_onework.Audit.{Values, log}
use ats_onework.Access.Repository.{get_role_by_name}
use ats_onework.Access.Members.{is_membership, add_member_role}
use ats_onework.Organizations.Repository.{
  is_admin_of, new_membership, add_membership, remove_membership, count_admins,
}
use ats_onework.Organizations.Service.{
  assign_each, assign_default_roles, add_new_member, add_member, remove_target, remove_member,
}

-- One membership for each person and organization, and an administrator of `org`.
pub record IsManaged (org : ℕ) (t : Table Membership) : Type 0 where
  pub unique : (o e : ℕ) → count (is_membership o e) t.rows ≤ 1
  pub managed : 1 ≤ count (is_admin_of org) t.rows

unfoldable pub Managed : ℕ → Db → Type 0
Managed org d = IsManaged org d.memberships

inserted-IsManaged :
    (org employee o : ℕ) (admin : Bool) (t : Table Membership)
    → find (is_membership o employee) t.rows ≡ none
    → IsManaged org t
    → IsManaged org (insert_row (new_membership employee o admin) t)
inserted-IsManaged org employee o admin t free m =
    let row = new_membership employee o admin t.next_id in
    record {
      unique = λ p e.
          count-append-le (is_membership p e) t.rows row
            (λ hit.
              let here : o ≡ p = ground arith in
              let who : employee ≡ e = ground arith in
              subst (λ k. find (is_membership k e) t.rows ≡ none) here
                (subst (λ k. find (is_membership o k) t.rows ≡ none) who free))
            (m.unique p e);
      managed =
          let one = m.managed in
          let more = count-append (is_admin_of org) t.rows row in omega (arith, one, more);
    }

pub add_membership-Keeps :
    (org employee o : ℕ) (admin : Bool) → Keeps (Managed org) (add_membership employee o admin)
unfolding add_membership Managed
add_membership-Keeps org employee o admin = record {
  at = λ d h. elim (Option-cases (find (is_membership o employee) d.memberships.rows)) [
    | inl free ↦ rw free (inserted-IsManaged org employee o admin d.memberships free h)
    | inr (m, found) ↦ rw found h
  ];
}

-- Who is deleted was no administrator, or another one is left.
deleted-IsManaged :
    (org employee o : ℕ) (t : Table Membership) (target : Membership)
    → find (is_membership o employee) t.rows ≡ some target
    → (target.is_admin && leb (count (is_admin_of o) t.rows) 1) ≡ false
    → IsManaged org t
    → IsManaged org
        (record { rows = delete (is_membership o employee) t.rows; next_id = t.next_id })
deleted-IsManaged org employee o t target found allowed m =
    let q = is_membership o employee in
    let a = is_admin_of org in
    let split = count-delete a q t.rows in
    let one = m.unique o employee in
    record {
      unique = λ p e.
          let fewer = count-delete (is_membership p e) q t.rows in
          let before = m.unique p e in omega (arith, fewer, before);
      managed = elim (Bool-cases (is_admin_of org target)) [
        | inr plain ↦
            let none_gone = count-both-lt a q t.rows found plain in
            let some_left = m.managed in omega (arith, split, one, none_gone, some_left)
        | inl admin ↦
            let hit = find_sound q t.rows found in
            let here : o ≡ org = ground (arith, hit, admin) in
            let two : leb (count a t.rows) 1 ≡ false =
              subst (λ k. leb (count (is_admin_of k) t.rows) 1 ≡ false) here
                (ground (arith, admin, allowed)) in
            let at_most = count-both-le a q t.rows in
            let many : 2 ≤ count a t.rows = ground (arith, two) in
            omega (arith, split, one, at_most, many)
      ];
    }

module _ (org : ℕ) where
  pub log-Keeps :
      (a o : Option ℕ) (action : Message) (t : String) (id : Piece) (old new : Option Values)
      → Keeps (Managed org) (log a o action t id old new)
  unfolding log Managed
  log-Keeps a o action t id old new = record { at = λ d h. h }

  admin-Keeps : (actor o : ℕ) → Keeps (Managed org) (require_admin actor o)
  unfolding Managed
  admin-Keeps actor o =
      Keeps-part (λ d. d.memberships) (IsManaged org) (require_admin actor o)
        (require_admin-Leaves (λ d. d.memberships) actor o)

  pub add_role-Keeps :
      (o membership role : ℕ) → Keeps (Managed org) (add_member_role o membership role)
  unfolding add_member_role Managed
  add_role-Keeps o membership role = record { at = λ d h. h }

  assign-Keeps :
      (o membership : ℕ) (names : List String)
      → Keeps (Managed org) (assign_each o membership names)
  unfolding assign_each
  assign-Keeps o membership [] = search keeps_rules
  assign-Keeps o membership (name ∷ rest) =
      let each : Option Role → Exec Db (Unit {0}) = λ found.
        or_raise found Error.not_found >>= λ role.
        add_member_role o membership role.role_id >> assign_each o membership rest in
      let ih = assign-Keeps o membership rest in
      Keeps-bind (gets (get_role_by_name o name)) each (Keeps-gets (get_role_by_name o name))
        (λ found.
          Keeps-bind (or_raise found Error.not_found)
            (λ role. add_member_role o membership role.role_id >> assign_each o membership rest)
            (Keeps-or_raise found Error.not_found)
            (λ role.
              Keeps-then (add_member_role o membership role.role_id) (assign_each o membership rest)
                (add_role-Keeps o membership role.role_id) ih))

  pub add_member-Keeps :
      (actor o employee : ℕ) (admin : Bool) (roles : List String)
      → Keeps (Managed org) (add_member actor o employee admin roles)
  unfolding add_member add_new_member assign_default_roles
  add_member-Keeps actor o employee admin roles =
      search (keeps_rules, log-Keeps, admin-Keeps, assign-Keeps, add_membership-Keeps) depth 20 fits
        6000

  remove_target-IsManaged :
      (actor o employee : ℕ) (target : Membership) (d : Db)
      → get_membership employee o d.memberships.rows ≡ some target
      → IsManaged org d.memberships
      → IsManaged org (remove_target actor o employee target (count_admins o d) d).1.memberships
  unfolding remove_target remove_membership count_admins log
  remove_target-IsManaged actor o employee target d found m =
      elim (Bool-cases (target.is_admin && leb (count (is_admin_of o) d.memberships.rows) 1)) [
        | inl last ↦ rw last m
        | inr allowed ↦
            let same =
              find_same (is_membership o employee)
                (λ x. x.employee_id == employee && x.organization_id == o) d.memberships.rows
                (λ x. ground arith) in
            rw allowed
              (deleted-IsManaged org employee o d.memberships target (same ∙ found) allowed m)
      ]

  pub remove_member-IsManaged :
      (actor o employee : ℕ) (d : Db)
      → IsManaged org d.memberships
      → IsManaged org (remove_member actor o employee d).1.memberships
  unfolding remove_member
  remove_member-IsManaged actor o employee d m =
      guard_cases (λ s. IsManaged org s.memberships) (require_admin actor o) _ d
        (require_admin-Leaves (λ s. s) actor o) m
        (λ a. elim (Option-cases (get_membership employee o d.memberships.rows)) [
          | inl gone ↦ rw gone m
          | inr (target, found) ↦
              rw found (remove_target-IsManaged actor o employee target d found m)
        ])
