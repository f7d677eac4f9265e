-- ===== src/Prelude/Endings.antt =====
-- What holds at the end of a call that may fail, with one rule for each way to build a call.
use nn_friends.Prelude.Hoare.{After}
use nn_friends.Prelude.Outcomes.{OnOk, Result, ok, err, Exec, ◌>>=◌, bound}

abbrev pub OnBoth : {S E A : Type 0} → (A → S → Type 0) → (S → Type 0) → Result E A × S → Type 0
OnBoth P Q (ok a, t) = P a t
OnBoth P Q (err x, t) = Q t

-- `m`, called in `s`, ends with a value and a state of `P`, or fails in a state of `Q`.
pub record Ends {S E A : Type 0} (P : A → S → Type 0) (Q : S → Type 0) (m : Exec S E A) (s : S)
    : Type 0 where
  pub holds : OnBoth P Q (m s)

module _ {S E A B : Type 0} {P : B → S → Type 0} {Q : S → Type 0} where
  pub Ends->>= :
      (m : Exec S E A) (f : A → Exec S E B) (s : S)
      → Ends (λ a t. Ends P Q (f a) t) Q m s
      → Ends P Q (m >>= f) s
  Ends->>= m f s h = record { holds = go (m s) h.holds }
    where
      go : (p : Result E A × S) → OnBoth (λ a t. Ends P Q (f a) t) Q p → OnBoth P Q (bound f p)
      go (ok a, t) k = k.holds
      go (err x, t) k = k

module _ {S E A : Type 0} {P R : A → S → Type 0} {Q : S → Type 0} where
  pub Ends-mono :
      (m : Exec S E A) (s : S) → ((a : A) (t : S) → P a t → R a t) → Ends P Q m s → Ends R Q m s
  Ends-mono m s f h = record { holds = go (m s) h.holds }
    where
      go : (p : Result E A × S) → OnBoth P Q p → OnBoth R Q p
      go (ok a, t) k = f a t k
      go (err x, t) k = k

  -- What holds after a call, and what holds where it ends.
  pub After-and :
      (m : Exec S E A) (s : S) → After P m s → Ends R Q m s → After (λ a t. P a t × R a t) m s
  After-and m s h k = record { holds = go (m s) h.holds k.holds }
    where
      go :
          (p : Result E A × S)
          → OnOk (λ a. P a p.1) p.0
          → OnBoth R Q p
          → OnOk (λ a. P a p.1 × R a p.1) p.0
      go (ok a, t) h k = (h, k)
      go (err x, t) h k = tt

module _ {S E A : Type 0} {P : A → S → Type 0} {Q : S → Type 0} where
  pub After-Ends : (m : Exec S E A) (s : S) → Ends P Q m s → After P m s
  After-Ends m s k = record { holds = go (m s) k.holds }
    where
      go : (p : Result E A × S) → OnBoth P Q p → OnOk (λ a. P a p.1) p.0
      go (ok a, t) k = k
      go (err x, t) k = tt

  -- What holds after a call that succeeded, where nothing is asked of one that failed.
  pub Ends-After : (m : Exec S E A) (s : S) → After P m s → ((t : S) → Q t) → Ends P Q m s
  Ends-After m s h f = record { holds = go (m s) h.holds }
    where
      go : (p : Result E A × S) → OnOk (λ a. P a p.1) p.0 → OnBoth P Q p
      go (ok a, t) k = k
      go (err x, t) k = f t

  pub Ends-any :
      (m : Exec S E A) (s : S) → ((a : A) (t : S) → P a t) → ((t : S) → Q t) → Ends P Q m s
  Ends-any m s f g = record { holds = go (m s) }
    where
      go : (p : Result E A × S) → OnBoth P Q p
      go (ok a, t) = f a t
      go (err x, t) = g t
