-- ===== src/Database/Rows.antt =====
-- What SQL does to the rows of a table: select, update and delete by a condition.
pub mod Laws
use nn_friends.Prelude.{
  ℕ, ◌≡◌, refl, Option, none, some, List, [], ◌∷◌, Bool, true, false, not, keep, length,
  if◌then◌else◌, arith,
}

module _ {ℓ} {A : Type ℓ} where
  -- UPDATE … SET f WHERE p
  abbrev pub alter : (A → Bool) → (A → A) → List A → List A
  alter p f [] = []
  alter p f (x ∷ xs) = (if p x then f x else x) ∷ alter p f xs

  -- DELETE … WHERE p
  abbrev pub delete : (A → Bool) → List A → List A
  delete p [] = []
  delete p (x ∷ xs) = if p x then delete p xs else x ∷ delete p xs

  -- RowsAffected of the two
  abbrev pub count : (A → Bool) → List A → ℕ
  count p xs = length (keep p xs)

  -- SELECT … WHERE p, the first row
  abbrev pub first : (A → Bool) → List A → Option A
  first p [] = none
  first p (x ∷ xs) = if p x then some x else first p xs

  -- EXISTS
  abbrev pub any : (A → Bool) → List A → Bool
  any p [] = false
  any p (x ∷ xs) = if p x then true else any p xs
