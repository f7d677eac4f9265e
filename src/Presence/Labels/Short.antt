-- ===== src/Presence/Labels/Short.antt =====
-- The length of the line that Description makes: crosspresence/labels.go.
use nn_friends.Prelude.{
  ℕ, zero, suc, ◌≡◌, ◌≤◌, refl, ap, Bool, String, ltb, if◌then◌else◌, arith, Bool-cases, inl, inr,
}
use nn_friends.Presence.Foreign.{Live}
use nn_friends.Presence.Labels.{
  client_label, label_or_other, line_for, join, cut, rune_count, description,
}

abbrev rest_of : ℕ → String → String
rest_of zero s = s
rest_of (suc n) String.[] = ""
rest_of (suc n) (String.◌∷◌ c s) = rest_of n s

join-cut : (n : ℕ) (s : String) → join (cut n s) (rest_of n s) ≡ s
join-cut zero s = refl
join-cut (suc n) String.[] = refl
join-cut (suc n) (String.◌∷◌ c s) = ap (String.◌∷◌ c) (join-cut n s)

join_nothing : (s : String) → join s "" ≡ s
join_nothing String.[] = refl
join_nothing (String.◌∷◌ c s) = ap (String.◌∷◌ c) (join_nothing s)

rune_count-cut_long : (n : ℕ) (s : String) → n ≤ rune_count s → rune_count (cut n s) ≡ n
rune_count-cut_long zero s h = refl
rune_count-cut_long (suc n) String.[] h = omega (arith, h)
rune_count-cut_long (suc n) (String.◌∷◌ c s) h = ap suc (rune_count-cut_long n s (omega (arith, h)))

-- The whole line of a friend, before it is cut.
abbrev pub whole_line : String → Live → String
whole_line name l = line_for l.title_id name (label_or_other (client_label l.namespace l.client))

-- What Description makes is the beginning of the whole line, and as much of it as 60 runes are: a
-- line of at most 60 runes is left as it is, and of a longer one the first 60 runes stay, however
-- long the name of the title or of the client is.
pub description-bound :
    (name : String) (l : Live)
    → ((rest : String) × (join (description name l) rest ≡ whole_line name l))
      × (rune_count (description name l) ≡ (
          if ltb 60 (rune_count (whole_line name l)) then 60 else rune_count (whole_line name l)))
unfolding description
description-bound name l = go (whole_line name l)
  where
    shown : String → Bool → String
    shown line b = if b then cut 60 line else line

    go :
        (line : String)
        → ((rest : String) × (join (shown line (ltb 60 (rune_count line))) rest ≡ line))
          × (rune_count (shown line (ltb 60 (rune_count line)))
              ≡ (if ltb 60 (rune_count line) then 60 else rune_count line))
    go line = elim (Bool-cases (ltb 60 (rune_count line))) [
      | inl long ↦
          simp (long) (
            (rest_of 60 line, join-cut 60 line),
            rune_count-cut_long 60 line (ground (arith, long)),
          )
      | inr short ↦ simp (short) (("", join_nothing line), refl)
    ]
