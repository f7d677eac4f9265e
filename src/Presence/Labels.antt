-- ===== src/Presence/Labels.antt =====
-- crosspresence/labels.go: the line for a friend live elsewhere, and the cache of title names. Names of
-- clients and namespaces are ASCII: ToLower, ToUpper and TrimSpace are those of Go on ASCII.
pub mod Short
pub mod Calls
pub mod Fetching
use Prim.Native.Char.{Char, code}
use nn_friends.Prelude.{
  ℕ, zero, suc, ◌+◌, ◌-◌, ◌*◌, Option, none, some, List, [], ◌∷◌, String, Bool, true, false, not,
  ◌&&◌, ◌||◌, ◌==◌, string_eq, if◌then◌else◌, nat_beq, ltb,
}
use nn_friends.Prelude.Dict.{Dict, get, put}
use nn_friends.Presence.Foreign.{Live}

abbrev pub join : String → String → String
join String.[] t = t
join (String.◌∷◌ c s) t = String.◌∷◌ c (join s t)

abbrev pub translate : String → String → Char → Char
translate (String.◌∷◌ a as') (String.◌∷◌ b bs) c =
    if nat_beq (code c) (code a) then b else translate as' bs c
translate _ _ c = c

abbrev pub map_text : (Char → Char) → String → String
map_text f String.[] = ""
map_text f (String.◌∷◌ c s) = String.◌∷◌ (f c) (map_text f s)

abbrev pub to_lower : String → String
to_lower = map_text (translate "ABCDEFGHIJKLMNOPQRSTUVWXYZ" "abcdefghijklmnopqrstuvwxyz")

abbrev pub to_upper : String → String
to_upper = map_text (translate "abcdefghijklmnopqrstuvwxyz" "ABCDEFGHIJKLMNOPQRSTUVWXYZ")

abbrev is_space : Char → Bool
is_space c = nat_beq (code c) 32 || (ltb 8 (code c) && ltb (code c) 14)

abbrev trim_start : String → String
trim_start String.[] = ""
trim_start (String.◌∷◌ c s) = if is_space c then trim_start s else String.◌∷◌ c s

abbrev trim_end : String → String
trim_end String.[] = ""
trim_end (String.◌∷◌ c s) =
    let rest = trim_end s in if is_space c && (rest == "") then "" else String.◌∷◌ c rest

-- strings.ToLower(strings.TrimSpace(s))
abbrev pub normal : String → String
normal s = to_lower (trim_end (trim_start s))

-- strings.ToUpper(c[:1]) + c[1:]
abbrev pub capital : String → String
capital String.[] = ""
capital (String.◌∷◌ c s) =
    String.◌∷◌ (translate "abcdefghijklmnopqrstuvwxyz" "ABCDEFGHIJKLMNOPQRSTUVWXYZ" c) s

abbrev pub platform_labels : Dict String String
platform_labels =
    ("switch", "Switch")
    ∷ ("wiiu", "Wii U")
    ∷ ("wii", "Wii")
    ∷ ("3ds", "3DS")
    ∷ ("nds", "NDS")
    ∷ ("ds", "NDS")
    ∷ ("np", "PS3")
    ∷ ("ps3", "PS3")
    ∷ ("xbox360", "Xbox 360")
    ∷ ("xbox-360", "Xbox 360")
    ∷ ("xbl", "Xbox 360")
    ∷ []

abbrev pub emulator_labels : Dict String String
emulator_labels =
    ("harbor", "Harbor")
    ∷ ("ryujinx", "Ryujinx")
    ∷ ("eden", "Eden")
    ∷ ("citron", "Citron")
    ∷ ("pier", "Pier")
    ∷ ("wharf", "Wharf")
    ∷ ("cemu", "Cemu")
    ∷ ("azahar", "Azahar")
    ∷ ("dolphin", "Dolphin")
    ∷ ("melonds", "melonDS")
    ∷ ("xemu", "xemu")
    ∷ ("xenia", "Xenia")
    ∷ ("pcsx2", "PCSX2")
    ∷ ("rpcs3", "RPCS3")
    ∷ ("ppsspp", "PPSSPP")
    ∷ ("vita3k", "Vita3K")
    ∷ []

-- The label of a platform, or its name with a capital.
abbrev pub platform_label : String → String
platform_label ns = elim (get platform_labels ns) [ some label ↦ label | none ↦ capital ns ]

unfoldable pub client_label : String → String → String
client_label ns client = elim (get emulator_labels (normal client)) [
  | some label ↦ label
  | none ↦ elim (get platform_labels (normal client)) [
    | some label ↦ label
    | none ↦ if normal client == "" then platform_label (normal ns) else capital (normal client)
  ]
]

abbrev pub label_or_other : String → String
label_or_other label = if label == "" then "another console" else label

abbrev pub line_for : String → String → String → String
line_for title name label =
    if title == ""
    then join "Online on " label
    else if name == ""
    then join "Playing a game on " label
    else join (join "Playing " name) (join " on " label)

abbrev pub max_message_runes : ℕ
max_message_runes = 60

-- The first runes of a text.
abbrev pub cut : ℕ → String → String
cut zero s = ""
cut (suc n) String.[] = ""
cut (suc n) (String.◌∷◌ c s) = String.◌∷◌ c (cut n s)

abbrev pub rune_count : String → ℕ
rune_count String.[] = 0
rune_count (String.◌∷◌ c s) = suc (rune_count s)

-- Description, with the name that Names.Name answers.
unfoldable pub description : String → Live → String
unfolding client_label
description name l =
    let line = line_for l.title_id name (label_or_other (client_label l.namespace l.client)) in
    if ltb max_message_runes (rune_count line) then cut max_message_runes line else line

-- nameEntry; `at` is none for the zero time.
pub record NameEntry : Type 0 where
  pub name : String
  pub at : Option ℕ
  pub busy : Bool

abbrev pub no_entry : NameEntry
no_entry = record { name = ""; at = none; busy = false }

abbrev pub name_hit_ttl : ℕ
name_hit_ttl = 6 * 3600

abbrev pub name_miss_ttl : ℕ
name_miss_ttl = 10 * 60

abbrev pub Names : Type 0
Names = Dict String NameEntry

abbrev pub entry_or_new : Option NameEntry → NameEntry
entry_or_new none = no_entry
entry_or_new (some e) = e

abbrev pub ttl_of : NameEntry → ℕ
ttl_of e = if e.name == "" then name_miss_ttl else name_hit_ttl

abbrev pub is_old : ℕ → NameEntry → Option ℕ → Bool
is_old now e none = true
is_old now e (some at) = ltb (ttl_of e) (now - at)

abbrev pub key_of : String → String → String
key_of ns title = join (to_lower ns) (join "/" (to_upper title))

-- Whether the entry wants a fetch; Fetch is always set.
abbrev pub wants_fetch : ℕ → NameEntry → Bool
wants_fetch now e = is_old now e e.at && not e.busy

-- What Name answers, the cache after it, and whether it has begun a fetch.
pub record Lookup : Type 0 where
  pub answer : String
  pub names : Names
  pub begun : Bool

-- The locked part of Name.
unfoldable pub look_up : ℕ → String → Names → Lookup
look_up now key t =
    let e = entry_or_new (get t key) in
    record {
      answer = e.name;
      names = put t key (record e { busy = e.busy || wants_fetch now e });
      begun = wants_fetch now e;
    }

abbrev pub no_lookup : Names → Lookup
no_lookup t = record { answer = ""; names = t; begun = false }

unfoldable pub name : ℕ → String → String → Names → Lookup
unfolding look_up
name now ns title t = if title == "" then no_lookup t else look_up now (key_of ns title) t

-- The end of the goroutine: `none` where the website could not answer.
abbrev pub named : Option String → String → String
named none old = old
named (some n) old = n

unfoldable pub land : ℕ → String → Option String → Names → Names
land now key answer t =
    put t key
      (record { name = named answer (entry_or_new (get t key)).name; at = some now; busy = false })

unfoldable pub landed : ℕ → String → String → Option String → Names → Names
unfolding land
landed now ns title answer t = land now (key_of ns title) answer t
