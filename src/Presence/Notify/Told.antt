-- ===== src/Presence/Notify/Told.antt =====
-- What a viewer knows after the changes of a pass.
use nn_friends.Prelude.{
  ℕ, String, ◌≡◌, refl, ap, ◌∙◌, subst, List, [], ◌∷◌, ◌++◌, Bool, true, false, not, ◌&&◌, ◌||◌,
  if◌then◌else◌, ◌==◌, nat_eq, string_eq, nat_beq, nat_beq_iff, Distinct, arith, Bool-cases, inl,
  inr,
}
use nn_friends.Prelude.Dict.{Dict, has, keys, has-keys}
use nn_friends.Presence.Notify.{Change, line_at, appeared, left, diff}

-- The line that a viewer shows for each friend, after being told of the changes in turn.
abbrev pub told : List Change → (ℕ → String) → ℕ → String
told [] shown q = shown q
told (c ∷ cs) shown q = told cs (λ x. if nat_beq c.friend_pid x then c.line else shown x) q

told-append :
    (cs ds : List Change) (f : ℕ → String) (q : ℕ) → told (cs ++ ds) f q ≡ told ds (told cs f) q
told-append [] ds f q = refl
told-append (c ∷ cs) ds f q = told-append cs ds _ q

absent_tail :
    (pid : ℕ) (line : String) (now : Dict ℕ String) (q : ℕ)
    → has ((pid, line) ∷ now) q ≡ false
    → (nat_beq pid q ≡ false) × (has now q ≡ false)
absent_tail pid line now q absent = elim (Bool-cases (nat_beq pid q)) [
  | inl here ↦ ground (arith, absent, here)
  | inr elsewhere ↦ (elsewhere, ground (arith, absent, elsewhere))
]

appeared_other :
    (prev now : Dict ℕ String) (f : ℕ → String) (q : ℕ)
    → has now q ≡ false
    → told (appeared prev now) f q ≡ f q
appeared_other prev [] f q absent = refl
appeared_other prev ((pid, line) ∷ now) f q absent = elim (Bool-cases (line_at prev pid == line)) [
  | inl same ↦ simp (same) (appeared_other prev now f q (absent_tail pid line now q absent).1)
  | inr new ↦ simp (new) (
      appeared_other prev now _ q (absent_tail pid line now q absent).1
      ∙ ap (λ b. if b then line else f q) (absent_tail pid line now q absent).0)
]

told-appeared :
    (prev now : Dict ℕ String) (f : ℕ → String) (q : ℕ)
    → Distinct (keys now)
    → f q ≡ line_at prev q
    → told (appeared prev now) f q ≡ (if has now q then line_at now q else f q)
told-appeared prev [] f q distinct same = refl
told-appeared prev ((pid, line) ∷ now) f q (fresh, distinct) same =
    elim (Bool-cases (nat_beq pid q)) [
      | inl here ↦ at_head here ((nat_beq_iff pid q).0 here) (has-keys now pid ∙ fresh)
      | inr elsewhere ↦ elim (Bool-cases (line_at prev pid == line)) [
        | inl known ↦
            simp (known) (told-appeared prev now f q distinct same ∙ ground (arith, elsewhere))
        | inr new ↦ simp (new) (
            told-appeared prev now (λ x. if nat_beq pid x then line else f x) q distinct
              (ap (λ b. if b then line else f q) elsewhere ∙ same)
            ∙ ground (arith, elsewhere))
      ]
    ]
  where
    at_head :
        nat_beq pid q ≡ true
        → pid ≡ q
        → has now pid ≡ false
        → told (appeared prev ((pid, line) ∷ now)) f q
          ≡ (if has ((pid, line) ∷ now) q then line_at ((pid, line) ∷ now) q else f q)
    at_head here equal absent = elim (Bool-cases (line_at prev pid == line)) [
      | inl known ↦ simp (known) (
          appeared_other prev now f q (subst (λ x. has now x ≡ false) equal absent)
          ∙ same
          ∙ subst (λ x. line_at prev x ≡ line) equal
              ((string_eq.beq_iff (line_at prev pid) line).0 known)
          ∙ ground (arith, here))
      | inr new ↦ simp (new) (
          appeared_other prev now _ q (subst (λ x. has now x ≡ false) equal absent)
          ∙ ground (arith, here))
    ]

told-left :
    (connected : ℕ → Bool) (now prev : Dict ℕ String) (f : ℕ → String) (q : ℕ)
    → told (left connected now prev) f q
      ≡ (if has prev q && not (has now q || connected q) then "" else f q)
told-left connected now [] f q = refl
told-left connected now ((pid, line) ∷ prev) f q =
    elim (Bool-cases (has now pid || connected pid)) [
      | inl stays ↦
          simp (stays) (
            told-left connected now prev f q ∙ ground (arith, nat_beq_iff pid q, at_pid true stays))
      | inr gone ↦
          simp (gone) (
            told-left connected now prev _ q ∙ ground (arith, nat_beq_iff pid q, at_pid false gone))
    ]
  where
    at_pid :
        (b : Bool) → (has now pid || connected pid) ≡ b → pid ≡ q → (has now q || connected q) ≡ b
    at_pid b h equal = subst (λ x. (has now x || connected x) ≡ b) equal h

-- A viewer who showed the lines of the last pass and is told of the changes shows the lines of this
-- pass, where a friend that is not among them is offline; only a friend who has left the lines and is
-- connected here keeps the line shown before, since their own connection announces them.
pub told-diff :
    (prev now : Dict ℕ String) (connected : ℕ → Bool) (q : ℕ)
    → Distinct (keys now)
    → told (diff prev now connected) (line_at prev) q
      ≡ (if not (has now q) && connected q then line_at prev q else line_at now q)
unfolding diff
told-diff prev now connected q distinct =
    told-append (appeared prev now) (left connected now prev) (line_at prev) q
    ∙ told-left connected now prev (told (appeared prev now) (line_at prev)) q
    ∙ ground (arith, told-appeared prev now (line_at prev) q distinct refl)
