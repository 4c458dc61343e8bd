-- ===== src/Basen.antt =====
-- server/basen/basen.go: bytes as a number in the positional system of an alphabet, its lowest
-- digit first. Alphabets and texts are ASCII, lists of codes below 128, so that a rune's index in
-- a text is its byte index. A `big.Int` is a natural number.
pub mod Alphabet
pub mod RoundTrip
pub mod Bytes
mod Examples
use native.Mathlib.Decide.{ℕ_discrete}
use peer_calls.Base.{
  ℕ, zero, suc, ◌+◌, ◌*◌, ◌/◌, ◌%◌, ◌^◌, Bool, true, false, Option, none, some, List, [], ◌∷◌, ◌++◌,
  ◌==◌, if◌then◌else◌, length,
}
use peer_calls.Base.Dict.{get, set}

-- `value.SetBytes(data)`: big-endian.
unfoldable pub from_bytes : ℕ → List ℕ → ℕ
from_bytes value [] = value
from_bytes value (b ∷ bs) = from_bytes (value * 256 + b) bs

-- `value.Bytes()`: big-endian, with no leading zero. The fuel bounds the number of bytes.
unfoldable pub to_bytes : ℕ → ℕ → List ℕ → List ℕ
to_bytes zero value acc = acc
to_bytes (suc fuel) value acc =
    let rest = to_bytes fuel (value / 256) ((value % 256) ∷ acc) in if value == 0 then acc else rest

-- `alphabet[i]`; no index is out of range where this is used.
unfoldable pub char_at : List ℕ → ℕ → ℕ
char_at [] i = 0
char_at (c ∷ cs) zero = c
char_at (c ∷ cs) (suc i) = char_at cs i

-- The loop of `Encode`; `none` means that the fuel ran out.
unfoldable pub encode_loop : ℕ → List ℕ → ℕ → Option (List ℕ)
encode_loop zero alphabet value = if value == 0 then some [] else none
encode_loop (suc fuel) alphabet value =
    let rest = encode_loop fuel alphabet (value / length alphabet) in
    if value == 0 then some [] else elim rest [
      | none ↦ none
      | some chars ↦ some (char_at alphabet (value % length alphabet) ∷ chars)
    ]

unfoldable pub encode : List ℕ → List ℕ → Option (List ℕ)
encode alphabet bytes = encode_loop (from_bytes 0 bytes) alphabet (from_bytes 0 bytes)

-- The loop of `NewBaseNDecoder`: a later occurrence of a character overwrites an earlier one.
unfoldable pub rune_to_value : ℕ → List ℕ → List (ℕ × ℕ) → List (ℕ × ℕ)
rune_to_value i [] m = m
rune_to_value i (r ∷ rs) m = rune_to_value (i + 1) rs (set ℕ_discrete r i m)

-- The loop of `Decode`, at index `i`; `none` is the error of a character that is not in the alphabet.
unfoldable pub decode_loop : List (ℕ × ℕ) → ℕ → ℕ → ℕ → List ℕ → Option ℕ
decode_loop m n i value [] = some value
decode_loop m n i value (r ∷ rs) = elim (get ℕ_discrete r m) [
  | none ↦ none
  | some val ↦ decode_loop m n (i + 1) (value + val * n ^ i) rs
]

abbrev pub bytes_of : Option ℕ → Option (List ℕ)
bytes_of none = none
bytes_of (some v) = some (to_bytes v v [])

unfoldable pub decode : List ℕ → List ℕ → Option (List ℕ)
decode alphabet text =
    bytes_of (decode_loop (rune_to_value 0 alphabet []) (length alphabet) 0 0 text)
