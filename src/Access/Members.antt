-- ===== src/Access/Members.antt =====
-- access/repository.py: the roles that memberships hold.
use ats_onework.Prelude.{ℕ, Bool, List, [], ◌∷◌, ◌++◌, ◌&&◌, ◌==◌, any, select, delete, map}
use ats_onework.Exec.{Exec, ok}
use ats_onework.Schema.{Db, Membership, Role, MembershipRole}
use ats_onework.Access.Repository.{among_ids, insert_new, insert_all}

abbrev pub is_membership : ℕ → ℕ → Membership → Bool
is_membership organization_id employee_id m =
    m.organization_id == organization_id && m.employee_id == employee_id

abbrev pub held_by : ℕ → ℕ → List Membership → MembershipRole → Bool
held_by organization_id employee_id memberships mr =
    mr.organization_id == organization_id
    && any (λ (m : Membership). m.membership_id == mr.membership_id)
        (select (is_membership organization_id employee_id) memberships)

abbrev pub holding : Membership → Role → MembershipRole
holding m r = record {
  membership_id = m.membership_id;
  role_id = r.role_id;
  organization_id = m.organization_id;
}

-- The rows of the INSERT's SELECT: memberships joined with the roles of their organization.
abbrev pub holdings : List ℕ → List Role → List Membership → List MembershipRole
holdings role_ids roles [] = []
holdings role_ids roles (m ∷ ms) =
    map (holding m)
      (select (λ r. among_ids role_ids r.role_id && r.organization_id == m.organization_id) roles)
    ++ holdings role_ids roles ms

abbrev pub same_holding : MembershipRole → MembershipRole → Bool
same_holding x y = x.membership_id == y.membership_id && x.role_id == y.role_id

unfoldable pub replace_member_roles : ℕ → ℕ → List ℕ → Exec Db (Unit {0})
replace_member_roles organization_id employee_id role_ids d = (
  ok tt,
  record d {
    membership_roles =
        insert_all same_holding
          (holdings role_ids d.roles.rows
            (select (is_membership organization_id employee_id) d.memberships.rows))
          (delete (held_by organization_id employee_id d.memberships.rows) d.membership_roles);
  },
)

unfoldable pub add_member_role : ℕ → ℕ → ℕ → Exec Db (Unit {0})
add_member_role organization_id membership_id role_id d = (
  ok tt,
  record d {
    membership_roles =
        insert_new same_holding
          (record {
            membership_id = membership_id;
            role_id = role_id;
            organization_id = organization_id;
          })
          d.membership_roles;
  },
)
