-- ===== src/Prelude/Lists.antt =====
-- Lists measured by native numbers, with the Boolean tests and predicates that the parts share.
use Prim.Native.Nat.{ℕ, zero, suc}
use mathlib.Core.Bool.{Bool, true, false, ◌||◌}
use mathlib.Core.Path.{◌≡◌, refl, subst}
use mathlib.Core.Logic.{◌⊎◌, inl, inr}
use mathlib.Core.List.{List, [], ◌∷◌}
use nn_friends.Prelude.Tests.{if◌then◌else◌, Bool-cases}
use nn_friends.Prelude.Keys.{Key, ◌==◌}

module _ {ℓ} {A : Type ℓ} where
  abbrev pub length : List A → ℕ
  length [] = 0
  length (x ∷ xs) = suc (length xs)

  abbrev pub take : ℕ → List A → List A
  take zero xs = []
  take (suc n) [] = []
  take (suc n) (x ∷ xs) = x ∷ take n xs

  abbrev pub drop : ℕ → List A → List A
  drop zero xs = xs
  drop (suc n) [] = []
  drop (suc n) (x ∷ xs) = drop n xs

  -- The entries that pass a test, in order.
  abbrev pub keep : (A → Bool) → List A → List A
  keep p [] = []
  keep p (x ∷ xs) = if p x then x ∷ keep p xs else keep p xs

  abbrev pub All {κ} : (A → Type κ) → List A → Type κ
  All P [] = Unit
  All P (x ∷ xs) = P x × All P xs

module _ {ℓ} {A : Type ℓ} ⦃e : Key A⦄ where
  abbrev pub contains : A → List A → Bool
  contains a [] = false
  contains a (x ∷ xs) = (a == x) || contains a xs

  abbrev pub Distinct : List A → Type 0
  Distinct [] = Unit
  Distinct (x ∷ xs) = (contains x xs ≡ false) × Distinct xs

module _ {A : Type 0} where
  abbrev pub Exists : (A → Type 0) → List A → Type 0
  Exists P [] = ⊥
  Exists P (x ∷ xs) = P x ⊎ Exists P xs

  pub All_map : (P Q : A → Type 0) (xs : List A) → ((x : A) → P x → Q x) → All P xs → All Q xs
  All_map P Q [] f h = tt
  All_map P Q (x ∷ xs) f (px, h) = (f x px, All_map P Q xs f h)

  pub Exists-map :
      (P Q : A → Type 0) (xs : List A) → ((x : A) → P x → Q x) → Exists P xs → Exists Q xs
  Exists-map P Q [] f h = h
  Exists-map P Q (x ∷ xs) f (inl px) = inl (f x px)
  Exists-map P Q (x ∷ xs) f (inr h) = inr (Exists-map P Q xs f h)

module _ {A : Type 0} (P : A → Type 0) where
  pub All-keep : (p : A → Bool) (xs : List A) → All P xs → All (λ x. P x × (p x ≡ true)) (keep p xs)
  All-keep p [] h = tt
  All-keep p (x ∷ xs) (px, h) = elim (Bool-cases (p x)) [
    | inl pass ↦ simp (pass) ((px, refl), All-keep p xs h)
    | inr skip ↦ simp (skip) (All-keep p xs h)
  ]

  pub All-take : (n : ℕ) (xs : List A) → All P xs → All P (take n xs)
  All-take zero xs h = tt
  All-take (suc n) [] h = tt
  All-take (suc n) (x ∷ xs) (px, h) = (px, All-take n xs h)

  -- What is found among the entries kept is found among all, and passed the test.
  pub Exists-keep :
      (p : A → Bool) (xs : List A) → Exists P (keep p xs) → Exists (λ x. P x × (p x ≡ true)) xs
  Exists-keep p [] h = h
  Exists-keep p (x ∷ xs) h = elim (Bool-cases (p x)) [
    | inl pass ↦
        head_or_rest pass (subst (λ b. Exists P (if b then x ∷ keep p xs else keep p xs)) pass h)
          (Exists-keep p xs)
    | inr skip ↦
        inr
          (Exists-keep p xs (subst (λ b. Exists P (if b then x ∷ keep p xs else keep p xs)) skip h))
  ]
    where
      head_or_rest :
          p x ≡ true
          → P x ⊎ Exists P (keep p xs)
          → (Exists P (keep p xs) → Exists (λ y. P y × (p y ≡ true)) xs)
          → (P x × (p x ≡ true)) ⊎ Exists (λ y. P y × (p y ≡ true)) xs
      head_or_rest pass (inl px) f = inl (px, pass)
      head_or_rest pass (inr rest) f = inr (f rest)
