-- ===== src/Basen/Examples.antt =====
-- The round trip of server/basen/basen.go at a concrete input.
use peer_calls.Base.{◌≡◌, ℕ, some, List, [], ◌∷◌, arith}
use peer_calls.Basen.{encode, decode}
use peer_calls.Basen.Bytes.{decode-encode}

decode-encode_example :
    (text : List ℕ) × (encode (48 ∷ 49 ∷ 50 ∷ []) (0 ∷ 5 ∷ []) ≡ some text)
    × (decode (48 ∷ 49 ∷ 50 ∷ []) text ≡ some (5 ∷ []))
decode-encode_example =
    decode-encode (48 ∷ 49 ∷ 50 ∷ []) (0 ∷ 5 ∷ []) (omega arith) (ground arith) (ground arith)
