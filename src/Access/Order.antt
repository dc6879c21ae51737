-- ===== src/Access/Order.antt =====
-- `ORDER BY name ASC`, and Python's `sorted` of a set of texts.
use ats_onework.Prelude.{String, Bool, List, [], ◌∷◌, if◌then◌else◌, any}
use ats_onework.Prelude.Text.{text_eq, text_le}

-- `comes_before x y`: `x` is put before `y`.
module _ {ℓ} {A : Type ℓ} (comes_before : A → A → Bool) where
  abbrev pub insert_by : A → List A → List A
  insert_by x [] = x ∷ []
  insert_by x (y ∷ ys) =
      let rest = insert_by x ys in if comes_before x y then x ∷ y ∷ ys else y ∷ rest

  abbrev pub order_by : List A → List A
  order_by [] = []
  order_by (x ∷ xs) = insert_by x (order_by xs)

-- `set(xs)`
unfoldable pub distinct_texts : List String → List String
distinct_texts [] = []
distinct_texts (x ∷ xs) =
    let rest = distinct_texts xs in if any (text_eq x) rest then rest else x ∷ rest

unfoldable pub sorted_set : List String → List String
sorted_set xs = order_by text_le (distinct_texts xs)
