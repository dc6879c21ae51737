-- ===== src/Access/Grants.antt =====
-- What the two tables of grants have in common.
use ats_onework.Prelude.{
  ℕ, String, Bool, false, Option, none, some, List, [], ◌∷◌, ◌≡◌, refl, ap, ◌∙◌, ◌||◌, any, arith,
}
use ats_onework.Schema.{Permission}
use ats_onework.Access.Order.{insert_by, order_by}

any-insert_by :
    {A : Type 0} (p : A → Bool) (le : A → A → Bool) (x : A) (xs : List A)
    → any p (insert_by le x xs) ≡ (p x || any p xs)
any-insert_by p le x [] = refl
any-insert_by p le x (y ∷ ys) = ground (arith, any-insert_by p le x ys)

-- An order loses nothing and adds nothing.
pub any-order_by :
    {A : Type 0} (p : A → Bool) (le : A → A → Bool) (xs : List A)
    → any p (order_by le xs) ≡ any p xs
any-order_by p le [] = refl
any-order_by p le (x ∷ xs) =
    any-insert_by p le x (order_by le xs) ∙ ap (λ b. p x || b) (any-order_by p le xs)

-- The columns of a table of grants, and the rows that an INSERT makes.
pub record Grants (A : Type 0) : Type 0 where
  pub holder_of : A → ℕ
  pub permission_of : A → ℕ
  pub organization_of : A → Option ℕ
  pub grant : ℕ → ℕ → Permission → A
  pub grant-holder : (o h : ℕ) (p : Permission) → holder_of (grant o h p) ≡ h
  pub grant-permission : (o h : ℕ) (p : Permission) → permission_of (grant o h p) ≡ p.permission_id
  pub grant-organization : (o h : ℕ) (p : Permission) → organization_of (grant o h p) ≡ some o

abbrev pub organization_named : Option Permission → Option ℕ
organization_named none = none
organization_named (some p) = some p.organization_id

-- Whether the permission's name satisfies `t`.
abbrev pub named : (String → Bool) → Option Permission → Bool
named t none = false
named t (some p) = t p.api_name
