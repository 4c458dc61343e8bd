-- ===== src/Mux/RoundTrip.antt =====
-- server/stringmux/packetizer.go: `Marshal` and `Unmarshal`, one after the other.
use peer_calls.Base.{
  ℕ, ◌%◌, ◌≤◌, ◌<◌, ◌≡◌, ◌⊎◌, inl, inr, List, [], ◌∷◌, ◌++◌, length, arith, All, take-length_append,
  drop-length_append, take-append-drop, length-append, length-take_le,
}
use native.Mathlib.Decide.{dec_lt}
use peer_calls.Mux.{stream_id_too_large, ok, err, marshal, unmarshal, string_mux_byte}

-- What was marshalled comes back: the stream id and the data, whatever they are, for ids of at
-- most 255 bytes. A longer id is refused.
pub unmarshal-marshal :
    (stream_id bytes : List ℕ)
    → ((length stream_id ≤ 255)
        × ((packet : List ℕ) × (marshal stream_id bytes ≡ ok packet)
            × (unmarshal packet ≡ ok (stream_id, bytes))))
      ⊎ ((255 < length stream_id) × (marshal stream_id bytes ≡ err stream_id_too_large))
unfolding marshal unmarshal
unmarshal-marshal stream_id bytes = elim (dec_lt 255 (length stream_id)) [
  | yes long ↦ inr (long, ground arith)
  | no short ↦
      let e : length stream_id % 256 ≡ length stream_id = omega arith in
      inl (
        omega arith,
        (
          string_mux_byte ∷ length stream_id % 256 ∷ (stream_id ++ bytes),
          ground arith,
          rw e (
              rw (take-length_append, drop-length_append)
                (ground (arith, length-append stream_id bytes))),
        ),
      )
]

-- A packet of bytes that is read as a stream id and data is what these marshal to.
pub marshal-unmarshal :
    (packet stream_id bytes : List ℕ)
    → All (λ b. b < 256) packet
    → unmarshal packet ≡ ok (stream_id, bytes)
    → marshal stream_id bytes ≡ ok packet
unfolding marshal unmarshal
marshal-unmarshal [] stream_id bytes h e = cc
marshal-unmarshal (b ∷ []) stream_id bytes h e = cc
marshal-unmarshal (b ∷ len ∷ rest) stream_id bytes (hb, (hl, hr)) e =
    ground (arith, take-append-drop len rest, length-take_le len rest)
