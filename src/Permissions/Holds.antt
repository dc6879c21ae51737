-- ===== src/Permissions/Holds.antt =====
-- What it means that a person holds a capability, by the rows of the tables.
use ats_onework.Prelude.{
  ℕ, String, Bool, true, none, some, Option, ◌≡◌, refl, sym, ap, ◌∙◌, ◌⊎◌, inl, inr, ◌&&◌, ◌||◌,
  ◌==◌, is_value, find_sound, find-Mem, any, any-map, any-select, any-Mem, Memᴰ, Bool-cases, arith,
}
use ats_onework.Prelude.Text.{text_eq, text_eq_sound}
use ats_onework.Schema.{Db, Membership, MembershipRole, RolePermission, UserPermission, Permission}
use ats_onework.Tenant.{get_membership}
use ats_onework.Permissions.{granted_by_role, granted_directly, granted_permissions, has_permission}

-- A membership of the employee, in the organization and with the rights of an administrator or not.
pub record IsSeat (employee org : ℕ) (is_admin : Bool) (d : Db) : Type 0 where
  pub membership : Membership
  pub is_row : Memᴰ membership d.memberships.rows
  pub of_employee : membership.employee_id ≡ employee
  pub of_organization : membership.organization_id ≡ org
  pub as_admin : membership.is_admin ≡ is_admin

pub get_membership-IsSeat :
    (employee org : ℕ) (d : Db) (m : Membership)
    → get_membership employee org d.memberships.rows ≡ some m
    → IsSeat employee org m.is_admin d
get_membership-IsSeat employee org d m h =
    let p : Membership → Bool = λ x. x.employee_id == employee && x.organization_id == org in
    let hit = find_sound p d.memberships.rows h in
    record {
      membership = m;
      is_row = find-Mem p d.memberships.rows h;
      of_employee = ground (arith, hit);
      of_organization = ground (arith, hit);
      as_admin = refl;
    }

-- A membership of the person has a role that grants the permission.
pub record ByRole (employee org permission : ℕ) (d : Db) : Type 0 where
  pub membership : Membership
  pub is_member : Memᴰ membership d.memberships.rows
  pub of_employee : membership.employee_id ≡ employee
  pub of_organization : membership.organization_id ≡ org
  pub role : MembershipRole
  pub has_role : Memᴰ role d.membership_roles
  pub of_membership : role.membership_id ≡ membership.membership_id
  pub grant : RolePermission
  pub granted : Memᴰ grant d.role_permissions
  pub of_role : grant.role_id ≡ role.role_id
  pub of_permission : grant.permission_id ≡ permission

-- The person has the permission in the organization without a role.
pub record Directly (employee org permission : ℕ) (d : Db) : Type 0 where
  pub grant : UserPermission
  pub granted : Memᴰ grant d.user_permissions
  pub of_employee : grant.employee_id ≡ employee
  pub of_organization : grant.organization_id ≡ some org
  pub of_permission : grant.permission_id ≡ permission

-- The person holds the capability of that name in the organization.
pub record Holds (employee org : ℕ) (name : String) (d : Db) : Type 0 where
  pub permission : Permission
  pub is_row : Memᴰ permission d.permissions.rows
  pub is_named : permission.api_name ≡ name
  pub of_organization : permission.organization_id ≡ org
  pub source :
      ByRole employee org permission.permission_id d
      ⊎ Directly employee org permission.permission_id d

by-role :
    (employee org permission : ℕ) (d : Db)
    → granted_by_role employee org permission d ≡ true
    → ByRole employee org permission d
unfolding granted_by_role
by-role employee org permission d h =
    let (m, (is_m, hm)) = any-Mem _ d.memberships.rows h in
    let (mr, (is_mr, hmr)) =
      any-Mem
        (λ (x : MembershipRole).
          x.membership_id == m.membership_id
          && any
              (λ (rp : RolePermission). rp.role_id == x.role_id && rp.permission_id == permission)
              d.role_permissions)
        d.membership_roles (ground (arith, hm)) in
    let (rp, (is_rp, hrp)) =
      any-Mem (λ (x : RolePermission). x.role_id == mr.role_id && x.permission_id == permission)
        d.role_permissions (ground (arith, hmr)) in
    record {
      membership = m;
      is_member = is_m;
      of_employee = ground (arith, hm);
      of_organization = ground (arith, hm);
      role = mr;
      has_role = is_mr;
      of_membership = ground (arith, hmr);
      grant = rp;
      granted = is_rp;
      of_role = ground (arith, hrp);
      of_permission = ground (arith, hrp);
    }

is_value-some : (o : Option ℕ) (n : ℕ) → is_value o n ≡ true → o ≡ some n
is_value-some none n h = absurd (cc)
is_value-some (some m) n h = ap some (ground (arith, h))

directly :
    (employee org permission : ℕ) (d : Db)
    → granted_directly employee org permission d ≡ true
    → Directly employee org permission d
unfolding granted_directly
directly employee org permission d h =
    let (up, (is_up, hit)) = any-Mem _ d.user_permissions h in
    record {
      grant = up;
      granted = is_up;
      of_employee = ground (arith, hit);
      of_organization = is_value-some up.organization_id org (ground (arith, hit));
      of_permission = ground (arith, hit);
    }

-- What `has_permission` answers yes to is held.
pub has_permission-Holds :
    (employee org : ℕ) (name : String) (d : Db)
    → has_permission employee org name d ≡ true
    → Holds employee org name d
unfolding has_permission granted_permissions
has_permission-Holds employee org name d h =
    let holds : Permission → Bool = λ p.
      p.organization_id == org
      && (granted_by_role employee org p.permission_id d
          || granted_directly employee org p.permission_id d) in
    let found : any (λ p. holds p && text_eq name p.api_name) d.permissions.rows ≡ true =
      sym (any-select (λ p. text_eq name p.api_name) holds d.permissions.rows)
      ∙ sym (any-map (text_eq name) (λ p. p.api_name) _)
      ∙ h in
    let (p, (is_p, hit)) =
      any-Mem (λ p. holds p && text_eq name p.api_name) d.permissions.rows found in
    let role = granted_by_role employee org p.permission_id d in
    record {
      permission = p;
      is_row = is_p;
      is_named = sym (text_eq_sound name p.api_name (ground (arith, hit)));
      of_organization = ground (arith, hit);
      source = elim (Bool-cases role) [
        | inl e ↦ inl (by-role employee org p.permission_id d e)
        | inr e ↦ inr (directly employee org p.permission_id d (ground (arith, hit, e)))
      ];
    }
