-- ===== src/Poller/Pages.antt =====
-- Paging through a log of events whose versions ascend.
use nn_friends.Prelude.{
  ℕ, zero, suc, ◌≤◌, ◌<◌, ◌≡◌, refl, ◌∙◌, ◌+◌, sym, ap, List, [], ◌∷◌, ◌++◌, true, false, keep,
  take, drop, length, ltb, arith, Bool-cases, inl, inr,
}
use nn_friends.Poller.{Event, last_version, handle_all}

-- The versions ascend and are past `v`.
abbrev pub IsAscending : ℕ → List Event → Type 0
IsAscending v [] = Unit
IsAscending v (e ∷ es) = (v < e.version) × IsAscending e.version es

abbrev pub after : ℕ → List Event → List Event
after v = keep (λ e. ltb v e.version)

pub last_version_bound : (v : ℕ) (es : List Event) → IsAscending v es → v ≤ last_version v es
last_version_bound v [] h = ground arith
last_version_bound v (e ∷ es) (newer, h) = ground (arith, last_version_bound e.version es h)

last_take_bound : (n v : ℕ) (es : List Event) → IsAscending v es → v ≤ last_version v (take n es)
last_take_bound zero v es h = ground arith
last_take_bound (suc n) v [] h = ground arith
last_take_bound (suc n) v (e ∷ es) (newer, h) = ground (arith, last_take_bound n e.version es h)

weaken : (u v : ℕ) (es : List Event) → u ≤ v → IsAscending v es → IsAscending u es
weaken u v [] le h = tt
weaken u v (e ∷ es) le (newer, h) = (omega arith, h)

-- Also where some are left out.
after_IsAscending : (u v : ℕ) (es : List Event) → IsAscending u es → IsAscending u (after v es)
after_IsAscending u v [] h = tt
after_IsAscending u v (e ∷ es) (newer, h) = elim (Bool-cases (ltb v e.version)) [
  | inl t ↦ simp (t) (newer, after_IsAscending e.version v es h)
  | inr f ↦
      simp (f) (weaken u e.version (after v es) (omega arith) (after_IsAscending e.version v es h))
]

pub after_all : (v : ℕ) (es : List Event) → IsAscending v es → after v es ≡ es
after_all v [] h = refl
after_all v (e ∷ es) (newer, h) =
    ground (arith, after_all v es (weaken v e.version es (omega arith) h))

pub after-IsAscending : (u v : ℕ) (es : List Event) → IsAscending u es → IsAscending v (after v es)
after-IsAscending u v [] h = tt
after-IsAscending u v (e ∷ es) (newer, h) = elim (Bool-cases (ltb v e.version)) [
  | inl t ↦ simp (t) (ground (arith, t), after_IsAscending e.version v es h)
  | inr f ↦ simp (f) (after-IsAscending e.version v es h)
]

after-after : (u v : ℕ) (es : List Event) → v ≤ u → after u (after v es) ≡ after u es
after-after u v [] h = refl
after-after u v (e ∷ es) h = ground (arith, after-after u v es h)

after-take :
    (n v : ℕ) (es : List Event)
    → IsAscending v es
    → after (last_version v (take n es)) es ≡ drop n es
after-take zero v es h = after_all v es h
after-take (suc n) v [] h = refl
after-take (suc n) v (e ∷ es) (newer, h) =
    ground (arith, after-take n e.version es h, last_take_bound n e.version es h)

-- The events after a page of what comes after `v`.
pub next_page :
    (u v n : ℕ) (log : List Event)
    → IsAscending u log
    → after (last_version v (take n (after v log))) log ≡ drop n (after v log)
next_page u v n log h =
    sym (
      after-after (last_version v (take n (after v log))) v log
        (last_take_bound n v (after v log) asc))
    ∙ after-take n v (after v log) asc
  where
    asc : IsAscending v (after v log)
    asc = after-IsAscending u v log h

module _ {W : Type 0} (f : Event → W → W) where
  pub handle_all-append :
      (es fs : List Event) (w : W) → handle_all f (es ++ fs) w ≡ handle_all f fs (handle_all f es w)
  handle_all-append [] fs w = refl
  handle_all-append (e ∷ es) fs w = handle_all-append es fs (f e w)

pub last_version-append :
    (v : ℕ) (es fs : List Event) → last_version v (es ++ fs) ≡ last_version (last_version v es) fs
last_version-append v [] fs = refl
last_version-append v (e ∷ es) fs = last_version-append e.version es fs

pub take-drop : {A : Type 0} (n : ℕ) (xs : List A) → take n xs ++ drop n xs ≡ xs
take-drop zero xs = refl
take-drop (suc n) [] = refl
take-drop (suc n) (x ∷ xs) = ap (λ l. x ∷ l) (take-drop n xs)

pub short_page :
    {A : Type 0} (n : ℕ) (xs : List A)
    → length (take n xs) < n
    → (take n xs ≡ xs) × (drop n xs ≡ [])
short_page zero xs h = absurd (omega (arith, h))
short_page (suc n) [] h = (refl, refl)
short_page (suc n) (x ∷ xs) h = onto (short_page n xs (omega (arith, h)))
  where
    onto : (take n xs ≡ xs) × (drop n xs ≡ []) → ((x ∷ take n xs) ≡ (x ∷ xs)) × (drop n xs ≡ [])
    onto (same, none_left) = (ap (λ l. x ∷ l) same, none_left)

pub full_page :
    {A : Type 0} (n : ℕ) (xs : List A) → n ≤ length (take n xs) → length xs ≡ n + length (drop n xs)
full_page zero xs h = omega arith
full_page (suc n) [] h = omega (arith, h)
full_page (suc n) (x ∷ xs) h = omega (arith, full_page n xs (omega (arith, h)))

module _ {A : Type 0} (n : ℕ) (xs : List A) where
  pub last_page : ltb (length (take n xs)) n ≡ true → (take n xs ≡ xs) × (drop n xs ≡ [])
  last_page h = short_page n xs (ground (arith, h))

  pub not_last_page : ltb (length (take n xs)) n ≡ false → n ≤ length (take n xs)
  not_last_page h = ground (arith, h)
