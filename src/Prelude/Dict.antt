-- ===== src/Prelude/Dict.antt =====
-- A Go map as an association list without repeated keys. The order of a `range` is the order of
-- the list, which is one of the orders that Go may choose.
use mathlib.Core.Path.{◌≡◌, refl}
use mathlib.Core.Logic.{◌⊎◌, inl, inr}
use mathlib.Core.Bool.{Bool, true, false}
use mathlib.Core.Option.{Option, none, some}
use mathlib.Core.List.{List, [], ◌∷◌}
use native.Mathlib.Omega.{arith}
use nn_friends.Prelude.Tests.{if◌then◌else◌, Bool-cases}
use nn_friends.Prelude.Lists.{contains}
use nn_friends.Prelude.Keys.{Key, ◌==◌, ==_refl}

abbrev pub Dict {ℓ κ} : Type ℓ → Type κ → Type (ℓ ⊔ κ)
Dict K V = List (K × V)

module _ {ℓ κ} {K : Type ℓ} {V : Type κ} ⦃e : Key K⦄ where
  -- `d[k]`
  abbrev pub get : Dict K V → K → Option V
  get [] k = none
  get ((j, v) ∷ d) k = if j == k then some v else get d k

  -- `delete(d, k)`
  abbrev pub remove : Dict K V → K → Dict K V
  remove [] k = []
  remove ((j, v) ∷ d) k = if j == k then remove d k else (j, v) ∷ remove d k

  -- `d[k] = v`
  abbrev pub put : Dict K V → K → V → Dict K V
  put d k v = (k, v) ∷ remove d k

  -- `_, ok := d[k]`
  abbrev pub has : Dict K V → K → Bool
  has d k = elim (get d k) [ none ↦ false | some _ ↦ true ]

  abbrev pub keys : Dict K V → List K
  keys [] = []
  keys ((k, v) ∷ d) = k ∷ keys d

  pub get-remove :
      (d : Dict K V) (k j : K) → get (remove d k) j ≡ (if k == j then none else get d j)
  get-remove [] k j = ground arith
  get-remove ((i, v) ∷ d) k j =
      ground (arith, get-remove d k j, e.beq_iff i k, e.beq_iff k j, e.beq_iff i j)

  pub get-put :
      (d : Dict K V) (k j : K) (v : V) → get (put d k v) j ≡ (if k == j then some v else get d j)
  get-put d k j v = ground (arith, get-remove d k j)

  pub get-put_self : (d : Dict K V) (k : K) (v : V) → get (put d k v) k ≡ some v
  get-put_self d k v = rw ==_refl

  -- What is found after a write is what was written, or what was there.
  pub get-put_cases :
      (d : Dict K V) (k j : K) (v : V) {x : V}
      → get (put d k v) j ≡ some x
      → ((k ≡ j) × (v ≡ x)) ⊎ (get d j ≡ some x)
  get-put_cases d k j v h = elim (Bool-cases (k == j)) [
    | inl same ↦ inl ((e.beq_iff k j).0 same, ground (arith, get-put d k j v))
    | inr other ↦ inr (ground (arith, get-put d k j v))
  ]

  pub has-keys : (d : Dict K V) (k : K) → has d k ≡ contains k (keys d)
  has-keys [] k = ground arith
  has-keys ((j, v) ∷ d) k = ground (arith, has-keys d k, e.beq_iff j k, e.beq_iff k j)

  pub get_no_key : (d : Dict K V) (k : K) → contains k (keys d) ≡ false → get d k ≡ none
  get_no_key [] k h = refl
  get_no_key ((j, v) ∷ d) k h = ground (arith, h, get_no_key d k, e.beq_iff j k, e.beq_iff k j)
