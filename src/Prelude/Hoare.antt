-- ===== src/Prelude/Hoare.antt =====
-- What holds after a call that succeeded, with one rule for each way to build a call.
use mathlib.Core.Path.{◌≡◌, refl, sym, subst}
use mathlib.Core.Bool.{Bool, true, false}
use nn_friends.Prelude.Tests.{if◌then◌else◌}
use nn_friends.Prelude.Outcomes.{
  Result, ok, err, Exec, OnOk, pure, fail, ◌>>=◌, recover, recovered, bound,
}

-- `m`, called in `s`, failed, or `P` holds of its value and the state after it.
pub record After {S E A : Type 0} (P : A → S → Type 0) (m : Exec S E A) (s : S) : Type 0 where
  pub holds : OnOk (λ a. P a (m s).1) (m s).0

module _ {S E A : Type 0} (P : A → S → Type 0) where
  if_holds :
      (b : Bool) {d : A} (x : E) {s : S} → P d s → OnOk (λ a. P a s) (if b then ok d else err x)
  if_holds true x h = h
  if_holds false x h = tt

  recovered_holds :
      (is_kind : E → Bool) (d : A) (p : Result E A × S)
      → ((a : A) → P a p.1)
      → OnOk (λ a. P a (recovered is_kind d p).1) (recovered is_kind d p).0
  recovered_holds is_kind d (ok a, s) h = h a
  recovered_holds is_kind d (err x, s) h = if_holds (is_kind x) x (h d)

module _ {S E A : Type 0} {P : A → S → Type 0} where
  pub After-pure : (a : A) (s : S) → P a s → After {E = E} P (pure a) s
  After-pure a s h = record { holds = h }

  pub After-fail : (x : E) (s : S) → After P (fail x) s
  After-fail x s = record { holds = tt }

  pub After-if :
      (b : Bool) (m n : Exec S E A) (s : S)
      → (b ≡ true → After P m s)
      → (b ≡ false → After P n s)
      → After P (if b then m else n) s
  After-if true m n s hm hn = hm refl
  After-if false m n s hm hn = hn refl

  -- A recovered call ends in the state in which the call itself ended.
  pub After-recover :
      (m : Exec S E A) (is_kind : E → Bool) (d : A) (s : S)
      → ((a : A) → P a (m s).1)
      → After P (recover m is_kind d) s
  unfolding recover
  After-recover m is_kind d s h = record { holds = recovered_holds P is_kind d (m s) h }

  pub After-mono :
      {Q : A → S → Type 0} (m : Exec S E A) (s : S)
      → ((a : A) (t : S) → P a t → Q a t)
      → After P m s
      → After Q m s
  After-mono {Q} m s f h = record { holds = go (m s) h.holds }
    where
      go : (p : Result E A × S) → OnOk (λ a. P a p.1) p.0 → OnOk (λ a. Q a p.1) p.0
      go (ok a, t) k = f a t k
      go (err x, t) k = tt

  -- What holds in every state and of every value holds after any call.
  pub After-any : (m : Exec S E A) (s : S) → ((a : A) (t : S) → P a t) → After P m s
  After-any m s f = record { holds = go (m s) }
    where
      go : (p : Result E A × S) → OnOk (λ a. P a p.1) p.0
      go (ok a, t) = f a t
      go (err x, t) = tt

  -- A call that does what another one does.
  pub After-same : (m n : Exec S E A) (s t : S) → m s ≡ n t → After P n t → After P m s
  After-same m n s t same h = record {
    holds = subst (λ p. OnOk (λ a. P a p.1) p.0) (sym same) h.holds;
  }

  -- Taking the conclusion out, where the call is known to have succeeded.
  pub After_ok : (m : Exec S E A) (s : S) {a : A} {t : S} → After P m s → m s ≡ (ok a, t) → P a t
  After_ok m s h e = subst (λ p. OnOk (λ a. P a p.1) p.0) e h.holds

module _ {S E A B : Type 0} {P : B → S → Type 0} where
  pub After->>= :
      (m : Exec S E A) (f : A → Exec S E B) (s : S)
      → After (λ a t. After P (f a) t) m s
      → After P (m >>= f) s
  After->>= m f s h = record { holds = go (m s) h.holds }
    where
      go :
          (p : Result E A × S)
          → OnOk (λ a. After P (f a) p.1) p.0
          → OnOk (λ b. P b (bound f p).1) (bound f p).0
      go (ok a, t) k = k.holds
      go (err x, t) k = tt
