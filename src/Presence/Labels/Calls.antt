-- ===== src/Presence/Labels/Calls.antt =====
-- A run of calls of Name and of ends of its goroutines, and what one call leaves of the cache:
-- crosspresence/labels.go.
use nn_friends.Prelude.{
  ℕ, suc, ◌≡◌, ◌≤◌, refl, sym, subst, String, Option, List, [], ◌∷◌, All, Bool, true, false, not,
  ◌&&◌, ◌||◌, ◌==◌, string_eq, if◌then◌else◌, arith, Bool-cases, inl, inr, ap, ◌∙◌,
}
use nn_friends.Prelude.Dict.{get, put, get-put, get-put_self}
use nn_friends.Presence.Labels.{
  NameEntry, Names, Lookup, no_lookup, entry_or_new, key_of, look_up, land, name, landed,
}

-- A call of Name at a time, or the end of a fetch at a time with what the website answered.
pub data Use : Type 0 where
  looks : ℕ → String → String → Use
  lands : ℕ → String → String → Option String → Use

unfoldable pub used : List Use → Names → Names
used [] t = t
used (looks now ns title ∷ us) t = used us (name now ns title t).names
used (lands now ns title answer ∷ us) t = used us (landed now ns title answer t)

-- How many fetches the calls of a run begin for the title that `key` stands for.
unfoldable pub begun_for : String → List Use → Names → ℕ
begun_for key [] t = 0
begun_for key (looks now ns title ∷ us) t =
    let rest = begun_for key us (name now ns title t).names in
    if (key_of ns title == key) && (name now ns title t).begun then suc rest else rest
begun_for key (lands now ns title answer ∷ us) t = begun_for key us (landed now ns title answer t)

-- No fetch for `key` ends.
abbrev pub IsElsewhere : String → Use → Type 0
IsElsewhere key (looks now ns title) = Unit {0}
IsElsewhere key (lands now ns title answer) = (key_of ns title == key) ≡ false

-- A call of Name is made at a time of `P`.
abbrev pub IsAt : (ℕ → Type 0) → Use → Type 0
IsAt P (looks now ns title) = P now
IsAt P (lands now ns title answer) = Unit {0}

-- A call is made by the time `until`.
abbrev pub IsBy : ℕ → Use → Type 0
IsBy until = IsAt (λ now. now ≤ until)

pub all-IsAt : (us : List Use) → All (IsAt (λ now. Unit {0})) us
all-IsAt [] = tt
all-IsAt (looks now ns title ∷ us) = (tt, all-IsAt us)
all-IsAt (lands now ns title answer ∷ us) = (tt, all-IsAt us)

unfoldable pub entry : Names → String → NameEntry
entry t key = entry_or_new (get t key)

and_false : (b : Bool) → (b && false) ≡ false
and_false true = refl
and_false false = refl

and_true : (a b : Bool) → (a && b) ≡ true → (a ≡ true) × (b ≡ true)
and_true true b h = (refl, h)
and_true false b h = ground (arith, h)

-- Or-ing in what is true.
or_true : (a b : Bool) → b ≡ true → (a || b) ≡ true
or_true a b h = ground (arith, h)

pub and_busy : (a b : Bool) → b ≡ true → (a && not b) ≡ false
and_busy a b h = ground (arith, h)

module _ (key : String) where
  pub put_self : (t : Names) (e : NameEntry) → entry (put t key e) key ≡ e
  unfolding entry
  put_self t e = ap entry_or_new (get-put_self t key e)

  put_other :
      (t : Names) (k : String) (e : NameEntry)
      → (k == key) ≡ false
      → entry (put t k e) key ≡ entry t key
  unfolding entry
  put_other t k e other = ap entry_or_new there
    where
      there : get (put t k e) key ≡ get t key
      there = ground (arith, get-put t k key e, other)

  -- A call of Name is its locked part, unless the title is empty.
  name_lem :
      (P : String → Lookup → Type 0) (now : ℕ) (ns title : String) (t : Names)
      → ((k : String) → P k (no_lookup t))
      → ((k : String) → P k (look_up now k t))
      → P (key_of ns title) (name now ns title t)
  unfolding name
  name_lem P now ns title t without looked = elim (Bool-cases (title == "")) [
    | inl e ↦ simp (e) (without (key_of ns title))
    | inr e ↦ simp (e) (looked (key_of ns title))
  ]

  -- A property of the entry of `key` that a call for it keeps, all calls keep.
  look_up-keeps :
      (Q : NameEntry → Type 0) (now : ℕ) (t : Names) (k : String)
      → Q (entry (look_up now key t).names key)
      → Q (entry t key)
      → Q (entry (look_up now k t).names key)
  unfolding look_up
  look_up-keeps Q now t k own q = elim (Bool-cases (k == key)) [
    | inl same ↦
        subst (λ j. Q (entry (look_up now j t).names key)) (sym ((string_eq.beq_iff k key).0 same))
          own
    | inr other ↦ subst Q (sym (put_other t k _ other)) q
  ]

  pub name-keeps :
      (Q : NameEntry → Type 0) (now : ℕ) (ns title : String) (t : Names)
      → Q (entry (look_up now key t).names key)
      → Q (entry t key)
      → Q (entry (name now ns title t).names key)
  name-keeps Q now ns title t own q =
      name_lem (λ k l. Q (entry l.names key)) now ns title t (λ k. q)
        (λ k. look_up-keeps Q now t k own q)

  pub landed-keeps :
      (Q : NameEntry → Type 0) (now : ℕ) (ns title : String) (answer : Option String) (t : Names)
      → (key_of ns title == key) ≡ false
      → Q (entry t key)
      → Q (entry (landed now ns title answer t) key)
  unfolding landed land
  landed-keeps Q now ns title answer t other q =
      subst Q (sym (put_other t (key_of ns title) _ other)) q

  -- The test of `begun_for`.
  abbrev pub counts : String → Lookup → Bool
  counts k l = (k == key) && l.begun

  pub counts-none :
      (now : ℕ) (ns title : String) (t : Names)
      → (look_up now key t).begun ≡ false
      → counts (key_of ns title) (name now ns title t) ≡ false
  counts-none now ns title t quiet =
      name_lem (λ k l. counts k l ≡ false) now ns title t (λ k. and_false (k == key))
        (λ k. elim (Bool-cases (k == key)) [
          | inl same ↦
              ap (λ b. b && (look_up now k t).begun) same
              ∙ subst (λ j. (look_up now j t).begun ≡ false)
                  (sym ((string_eq.beq_iff k key).0 same)) quiet
          | inr other ↦ ap (λ b. b && (look_up now k t).begun) other
        ])

  -- A call that counts leaves the entry busy.
  look_up-busy :
      (now : ℕ) (t : Names)
      → (look_up now key t).begun ≡ true
      → (entry (look_up now key t).names key).busy ≡ true
  unfolding look_up entry
  look_up-busy now t begun =
      ap (λ e. e.busy) (put_self t _) ∙ or_true (entry_or_new (get t key)).busy _ begun

  pub counts-busy :
      (now : ℕ) (ns title : String) (t : Names)
      → counts (key_of ns title) (name now ns title t) ≡ true
      → (entry (name now ns title t).names key).busy ≡ true
  counts-busy now ns title t =
      name_lem (λ k l. counts k l ≡ true → (entry l.names key).busy ≡ true) now ns title t
        (λ k begun. ground (arith, begun, and_false (k == key)))
        (λ k begun.
          let both = and_true (k == key) (look_up now k t).begun begun in
          subst
            (λ j. (look_up now j t).begun ≡ true → (entry (look_up now j t).names key).busy ≡ true)
            (sym ((string_eq.beq_iff k key).0 both.0)) (look_up-busy now t) both.1)
