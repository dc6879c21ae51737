-- ===== src/Organizations/History.antt =====
-- Sequences of the requests of organizations/router.py that change memberships, each in one
-- transaction (db/connection.py: `get_connection`).
use ats_onework.Prelude.{
  ℕ, String, Bool, Option, none, some, List, [], ◌∷◌, ◌≡◌, refl, ap, subst, ◌∙◌, is_some, find,
  Bool-cases, inl, inr,
}
use ats_onework.Exec.{Exec, Result, pure, transaction, ◌>>=◌}
use ats_onework.Exec.Keeps.{Keeps, Keeps-part, Keeps-bind, Keeps-pure, keeps_rules}
use ats_onework.Exec.Inversion.{transaction_cases}
use ats_onework.Schema.{Db, CatalogEntry, Role}
use ats_onework.Access.Catalog.{
  has_grants, grant_standard, install_role, install_each, install_roles, install_permissions,
}
use ats_onework.Access.Repository.{is_role}
use ats_onework.Organizations.Repository.{has_slug, create_organization_row}
use ats_onework.Organizations.Service.{create_organization, add_member, remove_member, give_role}
use ats_onework.Organizations.Admins.{
  IsManaged, Managed, log-Keeps, add_role-Keeps, add_membership-Keeps, add_member-Keeps,
  remove_member-IsManaged,
}

-- A service method with the arguments it takes after the actor.
pub data Call : Type 0 where
  found_organization : (name : String) (slug description : Option String) → Call
  join : (organization_id employee_id : ℕ) (is_admin : Bool) (roles : List String) → Call
  leave : (organization_id employee_id : ℕ) → Call

pub record Request : Type 0 where
  pub at : ℕ
  pub actor : ℕ
  pub call : Call

abbrev discard : {A : Type 0} → Exec Db A → Exec Db (Unit {0})
discard m = m >>= λ _. pure tt

module _ (lower : String → String) (collates : String → String → Bool) where
  unfoldable pub dispatch : ℕ → Call → Exec Db (Unit {0})
  dispatch actor (found_organization name slug description) =
      discard (create_organization lower collates actor name slug description)
  dispatch actor (join org employee is_admin roles) =
      discard (add_member actor org employee is_admin roles)
  dispatch actor (leave org employee) = remove_member actor org employee

  unfoldable pub serve : Request → Db → Result (Unit {0}) × Db
  serve r d = transaction (dispatch r.actor r.call) (record d { now = r.at })

  unfoldable pub run_members : List Request → Db → Db
  run_members [] d = d
  run_members (r ∷ rest) d = run_members rest (serve r d).1

-- The installation of the catalogue leaves memberships alone.
grant-memberships :
    (org : ℕ) (entry : CatalogEntry) (d : Db)
    → (grant_standard org entry d).memberships ≡ d.memberships
unfolding grant_standard
grant-memberships org entry d =
    elim (Bool-cases (has_grants org entry.name d.roles.rows d.role_permissions)) [
      | inl e ↦ rw e refl
      | inr e ↦ rw e refl
    ]

role-memberships :
    (org : ℕ) (entry : CatalogEntry) (d : Db)
    → (install_role org entry d).1.memberships ≡ d.memberships
unfolding install_role
role-memberships org entry d =
    elim (Bool-cases (is_some (find (is_role org entry.name) d.roles.rows))) [
      | inl e ↦ rw e (grant-memberships org entry d)
      | inr e ↦ rw e (grant-memberships org entry _)
    ]

each-memberships :
    (org : ℕ) (entries : List CatalogEntry) (d : Db)
    → (install_each org entries d).1.memberships ≡ d.memberships
unfolding install_each
each-memberships org [] d = refl
each-memberships org (entry ∷ entries) d =
    each-memberships org entries (install_role org entry d).1 ∙ role-memberships org entry d

module _ (org : ℕ) where
  leaves-Keeps :
      {A : Type 0} (m : Exec Db A)
      → ((d : Db) → (m d).1.memberships ≡ d.memberships)
      → Keeps (Managed org) m
  unfolding Managed
  leaves-Keeps m same = Keeps-part (λ d. d.memberships) (IsManaged org) m (record { at = same })

  row-Keeps :
      (name slug : String) (description : Option String)
      → Keeps (Managed org) (create_organization_row name slug description)
  unfolding create_organization_row
  row-Keeps name slug description =
      leaves-Keeps (create_organization_row name slug description) (λ d.
        elim (Bool-cases (is_some (find (has_slug slug) d.organizations.rows))) [
          | inl e ↦ rw e refl
          | inr e ↦ rw e refl
        ])

  permissions-Keeps : (o : ℕ) → Keeps (Managed org) (install_permissions o)
  unfolding install_permissions
  permissions-Keeps o = leaves-Keeps (install_permissions o) (λ d. refl)

  roles-Keeps :
      (collates : String → String → Bool) (o : ℕ) → Keeps (Managed org) (install_roles collates o)
  unfolding install_roles
  roles-Keeps collates o = leaves-Keeps (install_roles collates o) (λ d. each-memberships o _ d)

  give-Keeps :
      (o membership : ℕ) (role : Option Role) → Keeps (Managed org) (give_role o membership role)
  give-Keeps o membership none = Keeps-pure tt
  give-Keeps o membership (some role) = add_role-Keeps org o membership role.role_id

  create-Keeps :
      (lower : String → String) (collates : String → String → Bool) (actor : ℕ) (name : String)
      (slug description : Option String)
      → Keeps (Managed org) (create_organization lower collates actor name slug description)
  unfolding create_organization
  create-Keeps lower collates actor name slug description =
      search
        (
          keeps_rules, row-Keeps, permissions-Keeps, roles-Keeps, give-Keeps, log-Keeps,
          add_membership-Keeps,
        )
        depth 24 fits 8000

module _ (lower : String → String) (collates : String → String → Bool) (org : ℕ) where
  leave-Keeps : (actor o employee : ℕ) → Keeps (Managed org) (remove_member actor o employee)
  unfolding Managed
  leave-Keeps actor o employee = record {
    at = λ d h. remove_member-IsManaged org actor o employee d h;
  }

  dispatch-Keeps :
      (actor : ℕ) (call : Call) → Keeps (Managed org) (dispatch lower collates actor call)
  unfolding dispatch
  dispatch-Keeps actor (found_organization name slug description) =
      Keeps-bind (create_organization lower collates actor name slug description) (λ _. pure tt)
        (create-Keeps org lower collates actor name slug description) (λ _. Keeps-pure tt)
  dispatch-Keeps actor (join o employee is_admin roles) =
      Keeps-bind (add_member actor o employee is_admin roles) (λ _. pure tt)
        (add_member-Keeps org actor o employee is_admin roles) (λ _. Keeps-pure tt)
  dispatch-Keeps actor (leave o employee) = leave-Keeps actor o employee

  serve-IsManaged :
      (r : Request) (d : Db)
      → IsManaged org d.memberships
      → IsManaged org (serve lower collates r d).1.memberships
  unfolding serve Managed
  serve-IsManaged r d h =
      let start : Db = record d { now = r.at } in
      transaction_cases (λ s. IsManaged org s.memberships) (dispatch lower collates r.actor r.call)
        start h
        (λ a d' returned.
          subst (λ s. IsManaged org s.memberships) (ap (λ x. x.1) returned)
            ((dispatch-Keeps r.actor r.call).at start h))

  -- If a person has at most one membership of an organization, then an organization with an
  -- administrator has one after any sequence of requests that found organizations and add and remove
  -- members.
  pub run_members-IsManaged :
      (rs : List Request) (d : Db)
      → IsManaged org d.memberships
      → IsManaged org (run_members lower collates rs d).memberships
  unfolding run_members
  run_members-IsManaged [] d h = h
  run_members-IsManaged (r ∷ rest) d h =
      run_members-IsManaged rest (serve lower collates r d).1 (serve-IsManaged r d h)
