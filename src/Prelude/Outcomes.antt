-- ===== src/Prelude/Outcomes.antt =====
-- Go's `(value, error)` results over a state that is passed on, also where a call fails.
use mathlib.Core.Path.{◌≡◌, refl, ap, subst}
use mathlib.Core.Logic.{◌⊎◌, inl, inr}
use mathlib.Core.Bool.{Bool}
use nn_friends.Prelude.Tests.{if◌then◌else◌}

pub data Result {ℓ κ} (E : Type ℓ) (A : Type κ) : Type (ℓ ⊔ κ) where
  ok : A → Result E A
  err : E → Result E A

-- What a call did before it failed stays done.
abbrev pub Exec : Type 0 → Type 0 → Type 0 → Type 0
Exec S E A = S → Result E A × S

module _ {S E A : Type 0} where
  abbrev pub pure : A → Exec S E A
  pure a s = (ok a, s)

  abbrev pub fail : E → Exec S E A
  fail x s = (err x, s)

abbrev pub bound : {S E A B : Type 0} → (A → Exec S E B) → Result E A × S → Result E B × S
bound f (ok a, s) = f a s
bound f (err x, s) = (err x, s)

infixl 5 ◌>>=◌ ◌>>◌
abbrev pub ◌>>=◌ : {S E A B : Type 0} → Exec S E A → (A → Exec S E B) → Exec S E B
◌>>=◌ m f s = bound f (m s)

abbrev pub ◌>>◌ : {S E A B : Type 0} → Exec S E A → Exec S E B → Exec S E B
m >> k = m >>= λ _. k

pub Result-cases {ℓ κ} :
    {E : Type ℓ} {A : Type κ} (r : Result E A) → ((a : A) × (r ≡ ok a)) ⊎ ((x : E) × (r ≡ err x))
Result-cases (ok a) = inl (a, refl)
Result-cases (err x) = inr (x, refl)

-- What holds of a result if the call succeeded.
abbrev pub OnOk {ℓ κ μ} : {E : Type ℓ} {A : Type κ} → (A → Type μ) → Result E A → Type μ
OnOk P (ok a) = P a
OnOk P (err x) = Unit

pub OnOk_ok {ℓ κ μ} :
    {E : Type ℓ} {A : Type κ} (P : A → Type μ) (r : Result E A) {a : A} → OnOk P r → r ≡ ok a → P a
OnOk_ok P (ok x) h e = subst (OnOk P) e h
OnOk_ok P (err x) h e = cc

pub OnOk->>= :
    {S E A B : Type 0} (P : B → Type 0) (m : Exec S E A) (f : A → Exec S E B) (s : S)
    → ((a : A) → (m s).0 ≡ ok a → OnOk P (f a (m s).1).0)
    → OnOk P ((m >>= f) s).0
OnOk->>= P m f s h = elim (Result-cases (m s).0) [
  | inl (a, e) ↦ rw (e, ◌>>=◌) (h a e)
  | inr (x, e) ↦ rw (e, ◌>>=◌) tt
]

pub OnOk-and :
    {E A : Type 0} {P Q R : A → Type 0} (r : Result E A)
    → ((a : A) → P a → Q a → R a)
    → OnOk P r
    → OnOk Q r
    → OnOk R r
OnOk-and (ok a) f p q = f a p q
OnOk-and (err x) f p q = tt

pub OnOk-map :
    {E A : Type 0} {P R : A → Type 0} (r : Result E A) → ((a : A) → P a → R a) → OnOk P r → OnOk R r
OnOk-map (ok a) f p = f a p
OnOk-map (err x) f p = tt

pub OnOk-any : {E A : Type 0} (r : Result E A) → OnOk (λ _. Unit {0}) r
OnOk-any (ok a) = tt
OnOk-any (err x) = tt

pub >>=-ok :
    {S E A B : Type 0} (m : Exec S E A) (f : A → Exec S E B) (s : S) {a : A} {t : S}
    → m s ≡ (ok a, t)
    → (m >>= f) s ≡ f a t
>>=-ok m f s h = ap (bound f) h

pub >>=-err :
    {S E A B : Type 0} (m : Exec S E A) (f : A → Exec S E B) (s : S) {x : E} {t : S}
    → m s ≡ (err x, t)
    → (m >>= f) s ≡ (err x, t)
>>=-err m f s h = ap (bound f) h

-- `if errors.Is(err, …) { … }`: an error of the kind given becomes a value.
abbrev pub recovered : {S E A : Type 0} → (E → Bool) → A → Result E A × S → Result E A × S
recovered is_kind a (ok b, s) = (ok b, s)
recovered is_kind a (err x, s) = (if is_kind x then ok a else err x, s)

unfoldable pub recover : {S E A : Type 0} → Exec S E A → (E → Bool) → A → Exec S E A
recover m is_kind a s = recovered is_kind a (m s)
