-- ===== src/Codecs/Fmtp.antt =====
-- server/codecs/fmtp.go: the parameters of a format, such as `minptime=10;useinbandfec=1`. A text is
-- the list of its bytes, which are ASCII, so that the case and the spaces are those of ASCII.
use native.Mathlib.Decide.{ℕ_discrete}
use peer_calls.Base.{
  ℕ, ◌+◌, Bool, true, false, ◌&&◌, ◌||◌, Option, none, some, List, [], ◌∷◌, ◌==◌, leb,
  if◌then◌else◌,
}
use peer_calls.Base.Dict.{get, set, list_discrete}

abbrev pub Text : Type 0
Text = List ℕ

abbrev pub text_discrete : Discrete Text
text_discrete = list_discrete ℕ_discrete

unfoldable pub lower : ℕ → ℕ
lower c = if leb 65 c && leb c 90 then c + 32 else c

-- `strings.ToLower`
unfoldable pub to_lower : Text → Text
to_lower [] = []
to_lower (c ∷ s) = lower c ∷ to_lower s

-- `strings.EqualFold`
unfoldable pub equal_fold : Text → Text → Bool
equal_fold [] [] = true
equal_fold [] (d ∷ t) = false
equal_fold (c ∷ s) [] = false
equal_fold (c ∷ s) (d ∷ t) = lower c == lower d && equal_fold s t

abbrev pub is_space : ℕ → Bool
is_space c = c == 32 || (leb 9 c && leb c 13)

unfoldable pub trim_left : Text → Text
trim_left [] = []
trim_left (c ∷ s) = if is_space c then trim_left s else c ∷ s

abbrev pub keep_end : ℕ → Text → Text
keep_end c [] = if is_space c then [] else c ∷ []
keep_end c (d ∷ s) = c ∷ d ∷ s

unfoldable pub trim_right : Text → Text
trim_right [] = []
trim_right (c ∷ s) = keep_end c (trim_right s)

-- `strings.TrimSpace`
unfoldable pub trim_space : Text → Text
trim_space s = trim_right (trim_left s)

abbrev pub to_first : ℕ → List Text → List Text
to_first c [] = (c ∷ []) ∷ []
to_first c (p ∷ ps) = (c ∷ p) ∷ ps

-- `strings.Split` at a byte
unfoldable pub split : ℕ → Text → List Text
split sep [] = [] ∷ []
split sep (c ∷ s) = if c == sep then [] ∷ split sep s else to_first c (split sep s)

abbrev pub after_first : ℕ → Text × Option Text → Text × Option Text
after_first c (s, rest) = (c ∷ s, rest)

-- `strings.SplitN` into two parts
unfoldable pub split_two : ℕ → Text → Text × Option Text
split_two sep [] = ([], none)
split_two sep (c ∷ s) = if c == sep then ([], some s) else after_first c (split_two sep s)

abbrev pub Fmtp : Type 0
Fmtp = List (Text × Text)

abbrev pub or_no_text : Option Text → Text
or_no_text none = []
or_no_text (some v) = v

unfoldable pub add_part : Text → Fmtp → Fmtp
add_part p f =
    let (key, value) = split_two b'=' (trim_space p) in
    set text_discrete (to_lower key) (or_no_text value) f

unfoldable pub add_parts : List Text → Fmtp → Fmtp
add_parts [] f = f
add_parts (p ∷ ps) f = add_parts ps (add_part p f)

unfoldable pub parse_fmtp : Text → Fmtp
parse_fmtp line = add_parts (split b';' line) []

abbrev pub agrees : Text → Option Text → Bool
agrees v none = true
agrees v (some w) = equal_fold w v

-- One loop of `fmtpConsist`: the entries of a map agree with those of the other.
unfoldable pub entries_agree : Fmtp → Fmtp → Bool
entries_agree [] b = true
entries_agree ((k, v) ∷ a) b =
    let rest = entries_agree a b in if agrees v (get text_discrete k b) then rest else false

unfoldable pub fmtp_consist : Fmtp → Fmtp → Bool
fmtp_consist a b = if entries_agree a b then entries_agree b a else false
