-- ===== src/Logger/Text.antt =====
-- server/logger/level.go and server/logger/config.go: the levels as text, and the entries of a
-- configuration string. A string is the list of its bytes.
use native.Mathlib.Decide.{ℕ_discrete}
use peer_calls.Base.{
  ℕ, ◌≡◌, ◌≢◌, refl, ap, arith, ◌∙◌, Option, none, some, List, [], ◌∷◌, ◌++◌, ◌==◌, if◌then◌else◌,
  All,
}
use peer_calls.Base.Dict.{list_discrete, get, set}
use peer_calls.Logger.{
  LogLevel, level_unknown, level_disabled, level_error, level_warn, level_info, level_debug,
  level_trace, Name, name_discrete,
}

-- `LevelDisabledString` and the others.
abbrev pub level_string : LogLevel → Name
level_string level_unknown = []
level_string level_disabled = 100 ∷ 105 ∷ 115 ∷ 97 ∷ 98 ∷ 108 ∷ 101 ∷ 100 ∷ []
level_string level_error = 101 ∷ 114 ∷ 114 ∷ 111 ∷ 114 ∷ []
level_string level_warn = 119 ∷ 97 ∷ 114 ∷ 110 ∷ []
level_string level_info = 105 ∷ 110 ∷ 102 ∷ 111 ∷ []
level_string level_debug = 100 ∷ 101 ∷ 98 ∷ 117 ∷ 103 ∷ []
level_string level_trace = 116 ∷ 114 ∷ 97 ∷ 99 ∷ 101 ∷ []

abbrev level_texts : List (Name × LogLevel)
level_texts =
    (level_string level_error, level_error)
    ∷ (level_string level_warn, level_warn)
    ∷ (level_string level_info, level_info)
    ∷ (level_string level_debug, level_debug)
    ∷ (level_string level_trace, level_trace)
    ∷ (level_string level_disabled, level_disabled)
    ∷ []

-- `LevelFromString`, whose switch has the cases in this order.
unfoldable pub level_from_string : Name → Option LogLevel
level_from_string s = get name_discrete s level_texts

-- `strings.LastIndex` of a byte, as what stands before it and behind it.
unfoldable pub split_last : ℕ → Name → Option (Name × Name)
split_last b [] = none
split_last b (c ∷ s) = elim (split_last b s) [
  | some (before, behind) ↦ some (c ∷ before, behind)
  | none ↦ if c == b then some ([], s) else none
]

-- `strings.Split` at a byte: the pieces, of which there is at least one.
unfoldable pub split_at_byte : ℕ → Name → Name × List Name
split_at_byte b [] = ([], [])
split_at_byte b (c ∷ s) =
    let (first, rest) = split_at_byte b s in
    if c == b then ([], first ∷ rest) else (c ∷ first, rest)

abbrev with_level : Name → Name → Option LogLevel → Name × LogLevel
with_level entry before none = (entry, level_info)
with_level entry before (some l) = (before, l)

-- The body of the loop of `NewConfigFromString`.
abbrev entry_at : Name → Option (Name × Name) → Name × LogLevel
entry_at entry none = (entry, level_info)
entry_at entry (some (before, behind)) = with_level entry before (level_from_string behind)

unfoldable pub parse_entry : Name → Name × LogLevel
parse_entry entry = entry_at entry (split_last 58 entry)

unfoldable pub parse_entries : List Name → List (Name × LogLevel) → List (Name × LogLevel)
parse_entries [] config = config
parse_entries (e ∷ es) config =
    let (ns, l) = parse_entry e in parse_entries es (set name_discrete ns l config)

-- `NewConfigFromString` up to `NewConfig`; nil for the empty string.
unfoldable pub config_from_string : Name → Option (List (Name × LogLevel))
config_from_string [] = none
config_from_string (c ∷ s) =
    let (first, rest) = split_at_byte 44 (c ∷ s) in some (parse_entries (first ∷ rest) [])

-- Each level but the unknown one is read back from its text.
pub level_from_string-level_string :
    (l : LogLevel) → l ≢ level_unknown → level_from_string (level_string l) ≡ some l
unfolding level_from_string get list_discrete ℕ_discrete
level_from_string-level_string level_unknown h = absurd (h refl)
level_from_string-level_string level_disabled h = refl
level_from_string-level_string level_error h = refl
level_from_string-level_string level_warn h = refl
level_from_string-level_string level_info h = refl
level_from_string-level_string level_debug h = refl
level_from_string-level_string level_trace h = refl

split_last-none : (b : ℕ) (s : Name) → All (λ c. c ≢ b) s → split_last b s ≡ none
unfolding split_last
split_last-none b [] h = refl
split_last-none b (c ∷ s) (n, h) = rw (split_last-none b s h) (ground (arith, n))

split_last-append :
    (b : ℕ) (s t : Name) → All (λ c. c ≢ b) t → split_last b (s ++ (b ∷ t)) ≡ some (s, t)
unfolding split_last
split_last-append b [] t h = rw (split_last-none b t h) (ground arith)
split_last-append b (c ∷ s) t h = rw (split_last-append b s t h) refl

level_string-plain : (l : LogLevel) → All (λ c. c ≢ 58) (level_string l)
level_string-plain level_unknown = tt
level_string-plain level_disabled = ground arith
level_string-plain level_error = ground arith
level_string-plain level_warn = ground arith
level_string-plain level_info = ground arith
level_string-plain level_debug = ground arith
level_string-plain level_trace = ground arith

-- An entry that is a namespace, a colon and the text of a level other than the unknown one gives this
-- level to this namespace, whatever colons the namespace has.
pub parse_entry-level :
    (ns : Name) (l : LogLevel)
    → l ≢ level_unknown
    → parse_entry (ns ++ (58 ∷ level_string l)) ≡ (ns, l)
unfolding parse_entry
parse_entry-level ns l h =
    ap (entry_at _) (split_last-append 58 ns (level_string l) (level_string-plain l))
    ∙ ap (with_level _ ns) (level_from_string-level_string l h)
