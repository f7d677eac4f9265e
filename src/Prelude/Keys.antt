-- ===== src/Prelude/Keys.antt =====
-- Equality of map keys as an interface: PIDs and ids are numbers, account ids are texts.
use Prim.Native.Nat.{ℕ}
use Prim.Native.String.{String}
use mathlib.Core.Path.{◌≡◌, refl}
use mathlib.Core.Logic.{◌≢◌, ◌↔◌, inl, inr}
use mathlib.Core.Bool.{Bool, true, false, ◌&&◌}
use native.Mathlib.Omega.{arith}
use text.Mathlib.Text.{◌==◌ as str_beq}
use text.Mathlib.TextEquality.{eq_iff as str_beq_iff}
use nn_friends.Prelude.Tests.{nat_beq, nat_beq_iff, Bool-cases}

-- What Go asks of the type of a map's keys.
pub record Key {ℓ} (K : Type ℓ) : Type ℓ where
  pub beq : K → K → Bool
  pub beq_iff : (j k : K) → (beq j k ≡ true) ↔ (j ≡ k)

-- An account id or a namespace.
instance abbrev pub string_eq : Key String
string_eq = record { beq = str_beq; beq_iff = str_beq_iff }

-- A PID.
instance abbrev pub nat_eq : Key ℕ
nat_eq = record { beq = nat_beq; beq_iff = nat_beq_iff }

infix 50 ◌==◌
abbrev pub ◌==◌ {ℓ} : {K : Type ℓ} ⦃key : Key K⦄ → K → K → Bool
◌==◌ ⦃key⦄ = key.beq

module _ {ℓ} {A : Type ℓ} ⦃e : Key A⦄ where
  pub ==_refl : (a : A) → (a == a) ≡ true
  ==_refl a = (e.beq_iff a a).1 refl

  pub ==_ne : (a b : A) → a ≢ b → (a == b) ≡ false
  ==_ne a b h = elim (Bool-cases (a == b)) [
    | inl same ↦ absurd (h ((e.beq_iff a b).0 same))
    | inr other ↦ other
  ]

  pub ==_false : (a b : A) → (a == b) ≡ false → a ≢ b
  ==_false a b h p = cc (h, (e.beq_iff a b).1 p)

-- Pairs of keys.
abbrev pub pair_beq {ℓ κ} : {A : Type ℓ} {B : Type κ} ⦃d : Key A⦄ ⦃e : Key B⦄ → A × B → A × B → Bool
pair_beq p q = (p.0 == q.0) && (p.1 == q.1)

pub pair_beq_iff {ℓ κ} :
    {A : Type ℓ} {B : Type κ} ⦃d : Key A⦄ ⦃e : Key B⦄ (p q : A × B)
    → (pair_beq p q ≡ true) ↔ (p ≡ q)
pair_beq_iff ⦃d⦄ ⦃e⦄ (a, b) (c, f) = (
  (λ h. ground (arith, d.beq_iff a c, e.beq_iff b f)),
  (λ h. ground (arith, d.beq_iff a c, e.beq_iff b f)),
)

instance abbrev pub pair_eq {ℓ κ} : {A : Type ℓ} {B : Type κ} ⦃d : Key A⦄ ⦃e : Key B⦄ → Key (A × B)
pair_eq = record { beq = pair_beq; beq_iff = pair_beq_iff }
