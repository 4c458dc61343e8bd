-- ===== src/Mux.antt =====
-- server/stringmux/packetizer.go: a stream's name in front of its data. Bytes are numbers below
-- 256; a Go string is the list of its bytes.
pub mod RoundTrip
mod Examples
use peer_calls.Base.{
  ℕ, zero, suc, ◌+◌, ◌%◌, Bool, true, false, List, [], ◌∷◌, ◌++◌, ltb, ◌==◌, if◌then◌else◌, length,
  take, drop, not,
}

abbrev pub string_mux_byte : ℕ
string_mux_byte = 200

abbrev pub max_len_stream_id : ℕ
max_len_stream_id = 255

pub data MuxError : Type 0 where
  stream_id_too_large invalid_header : MuxError

pub data Result {ℓ} (A : Type ℓ) : Type ℓ where
  ok : A → Result A
  err : MuxError → Result A

unfoldable pub marshal : List ℕ → List ℕ → Result (List ℕ)
marshal stream_id bytes =
    if ltb max_len_stream_id (length stream_id)
    then err stream_id_too_large
    else ok (string_mux_byte ∷ length stream_id % 256 ∷ (stream_id ++ bytes))

-- The checks are those of the source, in its order; the first pattern is `len(data) < 2`.
unfoldable pub unmarshal : List ℕ → Result (List ℕ × List ℕ)
unmarshal [] = err invalid_header
unmarshal (b ∷ []) = err invalid_header
unmarshal (b ∷ len ∷ rest) =
    if b == string_mux_byte
    then (if ltb (length (b ∷ len ∷ rest)) (2 + len)
        then err invalid_header
        else ok (take len rest, drop len rest))
    else err invalid_header
