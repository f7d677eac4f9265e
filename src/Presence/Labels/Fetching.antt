-- ===== src/Presence/Labels/Fetching.antt =====
-- When the cache of title names asks the website: Name of crosspresence/labels.go, over any run of its
-- calls and of the ends of its goroutines.
use nn_friends.Prelude.{
  ℕ, suc, ◌≡◌, ◌≤◌, ◌+◌, ◌-◌, ◌*◌, refl, sym, subst, String, Option, some, List, [], ◌∷◌, All, Bool,
  true, false, not, ◌&&◌, ◌||◌, ◌==◌, string_eq, if◌then◌else◌, ltb, arith, ap, ◌∙◌,
}
use nn_friends.Prelude.Dict.{get}
use nn_friends.Presence.Labels.{
  NameEntry, Names, Lookup, no_lookup, entry_or_new, key_of, is_old, wants_fetch, name_miss_ttl,
  named, look_up, land, name, landed,
}
use nn_friends.Presence.Labels.Calls.{
  Use, looks, lands, used, begun_for, IsElsewhere, IsAt, IsBy, all-IsAt, and_busy, entry, put_self,
  name-keeps, landed-keeps, counts, counts-none, counts-busy,
}

-- What the end of a fetch leaves of the entry, and ten minutes of calls keep.
record IsAnswered (arrived : ℕ) (n : String) (e : NameEntry) : Type 0 where
  said : e.name ≡ n
  fetched : e.at ≡ some arrived
  idle : e.busy ≡ false

module _ (key : String) where
  -- Where a call for `key` keeps a property of its entry and begins no fetch, a run of calls at such
  -- times begins none and keeps it too.
  module _ (Q : NameEntry → Type 0) (P : ℕ → Type 0) where
    used-settled :
        ((now : ℕ) (t : Names)
          → P now
          → Q (entry t key)
          → Q (entry (look_up now key t).names key) × ((look_up now key t).begun ≡ false))
        → (us : List Use) (t : Names) → All (IsElsewhere key) us
        → All (IsAt P) us
        → Q (entry t key)
        → (begun_for key us t ≡ 0) × Q (entry (used us t) key)
    unfolding used begun_for
    used-settled step [] t elsewhere times q = (refl, q)
    used-settled step (looks now ns title ∷ us) t elsewhere times q =
        let own = step now t times.0 q in
        let rest =
          used-settled step us (name now ns title t).names elsewhere.1 times.1
            (name-keeps key Q now ns title t own.0 q) in
        (
          ap
                (λ b.
                  if b
                  then suc (begun_for key us (name now ns title t).names)
                  else begun_for key us (name now ns title t).names)
                (counts-none key now ns title t own.1)
              ∙ rest.0,
          rest.1,
        )
    used-settled step (lands now ns title answer ∷ us) t elsewhere times q =
        used-settled step us (landed now ns title answer t) elsewhere.1 times.1
          (landed-keeps key Q now ns title answer t elsewhere.0 q)

  -- While a fetch is under way, the calls begin no other.
  busy_waits :
      (us : List Use) (t : Names)
      → All (IsElsewhere key) us
      → (entry t key).busy ≡ true
      → begun_for key us t ≡ 0
  unfolding look_up entry
  busy_waits us t elsewhere busy =
      (used-settled (λ e. e.busy ≡ true) (λ now. Unit {0}) step us t elsewhere (all-IsAt us) busy).0
    where
      step :
          (now : ℕ) (u : Names)
          → Unit {0}
          → (entry u key).busy ≡ true
          → ((entry (look_up now key u).names key).busy ≡ true)
            × ((look_up now key u).begun ≡ false)
      step now u any h = (
        ap (λ e. e.busy) (put_self key u _) ∙ ap (λ b. b || wants_fetch now (entry u key)) h,
        and_busy (is_old now (entry u key) (entry u key).at) _ h,
      )

  begun_once : (us : List Use) (t : Names) → All (IsElsewhere key) us → begun_for key us t ≤ 1
  unfolding begun_for
  begun_once [] t elsewhere = omega arith
  begun_once (lands now ns title answer ∷ us) t elsewhere =
      begun_once us (landed now ns title answer t) elsewhere.1
  begun_once (looks now ns title ∷ us) t elsewhere =
      go (begun_once us (name now ns title t).names elsewhere.1)
        (counts key (key_of ns title) found) refl
    where
      found : Lookup
      found = name now ns title t

      go :
          begun_for key us found.names ≤ 1
          → (b : Bool) → counts key (key_of ns title) found ≡ b
          → (if b then suc (begun_for key us found.names) else begun_for key us found.names) ≤ 1
      go rest true counted =
          ground
            (arith, busy_waits us found.names elsewhere.1 (counts-busy key now ns title t counted))
      go rest false other = rest

  IsAnswered-waits :
      (arrived : ℕ) (n : String) (us : List Use) (t : Names)
      → All (IsElsewhere key) us
      → All (IsBy (arrived + name_miss_ttl)) us
      → IsAnswered arrived n (entry t key)
      → (begun_for key us t ≡ 0) × IsAnswered arrived n (entry (used us t) key)
  unfolding look_up entry
  IsAnswered-waits arrived n =
      used-settled (IsAnswered arrived n) (λ now. now ≤ arrived + name_miss_ttl) step
    where
      wants :
          (now : ℕ) (e : NameEntry)
          → now ≤ arrived + name_miss_ttl
          → IsAnswered arrived n e
          → wants_fetch now e ≡ false
      wants now e soon h = ap (λ o. is_old now e o && not e.busy) h.fetched ∙ not_old (e.name == "")
        where
          not_old :
              (b : Bool)
              → (ltb (if b then name_miss_ttl else 6 * 3600) (now - arrived) && not e.busy) ≡ false
          not_old true = ground (arith, soon)
          not_old false = ground (arith, soon)

      step :
          (now : ℕ) (u : Names)
          → now ≤ arrived + name_miss_ttl
          → IsAnswered arrived n (entry u key)
          → IsAnswered arrived n (entry (look_up now key u).names key)
            × ((look_up now key u).begun ≡ false)
      step now u soon h = (
        subst (IsAnswered arrived n) (sym (put_self key u _)) (record {
          said = h.said;
          fetched = h.fetched;
          idle =
              ap (λ b. b || wants_fetch now (entry u key)) h.idle ∙ wants now (entry u key) soon h;
        }),
        wants now (entry u key) soon h,
      )

-- Of a title that is not empty, from any cache: any run `before` of calls of Name, for any titles and
-- at any times, and of ends of fetches for other titles begins at most one fetch for the title. When a
-- fetch for the title then ends, any run `after` of such ends and of calls by ten minutes later begins
-- none for it, and Name tells the name that came, or the one it had where none came.
pub name-fetches :
    (arrived now : ℕ) (ns title : String) (answer : Option String) (before after : List Use)
    (t : Names)
    → (title == "") ≡ false
    → All (IsElsewhere (key_of ns title)) before
    → All (IsElsewhere (key_of ns title)) after
    → All (IsBy (arrived + name_miss_ttl)) after
    → let waiting = used before t in
      let ended = landed arrived ns title answer waiting in
      (begun_for (key_of ns title) before t ≤ 1)
      × (begun_for (key_of ns title) after ended ≡ 0)
      × ((name now ns title (used after ended)).answer
          ≡ named answer (entry_or_new (get waiting (key_of ns title))).name)
unfolding landed land name look_up entry
name-fetches arrived now ns title answer before after t titled away gone soon =
    let waits = IsAnswered-waits key arrived said after ended gone soon there in
    (
      begun_once key before t away,
      waits.0,
      ap
            (λ b.
              (if b
                then no_lookup (used after ended)
                else look_up now key (used after ended)).answer)
            titled
          ∙ waits.1.said,
    )
  where
    key : String
    key = key_of ns title

    said : String
    said = named answer (entry (used before t) key).name

    ended : Names
    ended = landed arrived ns title answer (used before t)

    there : IsAnswered arrived said (entry ended key)
    there =
        subst (IsAnswered arrived said) (sym (put_self key (used before t) _))
          (record { said = refl; fetched = refl; idle = refl })
