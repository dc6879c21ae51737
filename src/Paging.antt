-- ===== src/Paging.antt =====
-- The lists that the repositories return: `ORDER BY key DESC LIMIT n` over the selected rows.
pub mod Laws
use ats_onework.Prelude.{ℕ, List, [], ◌∷◌, ltb, if◌then◌else◌, take}

module _ {A : Type 0} (key : A → ℕ) where
  abbrev pub insert_desc : A → List A → List A
  insert_desc x [] = x ∷ []
  insert_desc x (y ∷ ys) = if ltb (key x) (key y) then y ∷ insert_desc x ys else x ∷ y ∷ ys

  abbrev pub order_desc : List A → List A
  order_desc [] = []
  order_desc (x ∷ xs) = insert_desc x (order_desc xs)

  -- ORDER BY key DESC LIMIT n
  unfoldable pub newest : ℕ → List A → List A
  newest limit rows = take limit (order_desc rows)
