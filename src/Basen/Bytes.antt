-- ===== src/Basen/Bytes.antt =====
-- server/basen/basen.go: the big-endian bytes of a number, and `Decode` after `Encode`.
use peer_calls.Base.{
  ℕ, zero, suc, ◌+◌, ◌*◌, ◌/◌, ◌%◌, ◌≤◌, ◌<◌, ◌≡◌, refl, ap, ◌∙◌, some, List, [], ◌∷◌, ◌++◌, length,
  arith, All, Bool-cases, inl, inr, ◌==◌, if◌then◌else◌, false,
}
use mathlib.Core.List.{append-nil}
use native.Mathlib.Nat.{pow-zero}
use peer_calls.Basen.{from_bytes, to_bytes, encode, decode, bytes_of}
use peer_calls.Basen.Alphabet.{Distinct}
use peer_calls.Basen.RoundTrip.{encode_loop-Decodes}

-- More fuel than the value changes nothing.
to_bytes_enough : (f g v : ℕ) (acc : List ℕ) → v ≤ f → v ≤ g → to_bytes f v acc ≡ to_bytes g v acc
unfolding to_bytes
to_bytes_enough zero zero v acc hf hg = refl
to_bytes_enough zero (suc g) v acc hf hg = let z : v ≡ 0 = omega arith in rw z
to_bytes_enough (suc f) zero v acc hf hg = let z : v ≡ 0 = omega arith in rw z
to_bytes_enough (suc f) (suc g) v acc hf hg = elim (Bool-cases (v == 0)) [
  | inl z ↦ rw z
  | inr n ↦
      rw n (to_bytes_enough f g (v / 256) (v % 256 ∷ acc) (ground (arith, n)) (ground (arith, n)))
]

abbrev bytes : ℕ → List ℕ → List ℕ
bytes v acc = to_bytes v v acc

bytes_last :
    (v b : ℕ) (acc : List ℕ)
    → 0 < v * 256 + b
    → b < 256
    → bytes (v * 256 + b) acc ≡ bytes v (b ∷ acc)
bytes_last v b acc pos hb =
    to_bytes_enough (v * 256 + b) (suc (v * 256 + b)) (v * 256 + b) acc (omega arith) (omega arith)
    ∙ one_step v b acc pos hb
    ∙ to_bytes_enough (v * 256 + b) v v (b ∷ acc) (omega arith) (omega arith)
  where
    one_step :
        (v b : ℕ) (acc : List ℕ)
        → 0 < v * 256 + b
        → b < 256
        → to_bytes (suc (v * 256 + b)) (v * 256 + b) acc ≡ to_bytes (v * 256 + b) v (b ∷ acc)
    one_step v b acc pos hb =
        let n : ((v * 256 + b) == 0) ≡ false = ground arith in
        let q : (v * 256 + b) / 256 ≡ v = omega arith in
        let r : (v * 256 + b) % 256 ≡ b = omega arith in unfold to_bytes in rw n (rw q (rw r))

bytes-from_bytes :
    (v : ℕ) (bs acc : List ℕ)
    → 0 < v
    → All (λ b. b < 256) bs
    → bytes (from_bytes v bs) acc ≡ bytes v (bs ++ acc)
unfolding from_bytes
bytes-from_bytes v [] acc pos h = refl
bytes-from_bytes v (b ∷ bs) acc pos (hb, h) =
    bytes-from_bytes (v * 256 + b) bs acc (omega arith) h
    ∙ bytes_last v b (bs ++ acc) (omega arith) hb

-- A list of bytes without its leading zeros.
abbrev pub strip_zeros : List ℕ → List ℕ
strip_zeros [] = []
strip_zeros (b ∷ bs) = let rest = strip_zeros bs in if b == 0 then rest else b ∷ bs

bytes-strip_zeros :
    (bs : List ℕ) → All (λ b. b < 256) bs → bytes (from_bytes 0 bs) [] ≡ strip_zeros bs
unfolding from_bytes
bytes-strip_zeros [] h = unfold to_bytes in refl
bytes-strip_zeros (b ∷ bs) (hb, h) = elim (Bool-cases (b == 0)) [
  | inl z ↦ let e : 0 * 256 + b ≡ 0 = ground (arith, z) in rw (z, e) (bytes-strip_zeros bs h)
  | inr n ↦ rw n (
      bytes-from_bytes (0 * 256 + b) bs [] (ground (arith, n)) h
      ∙ bytes_last 0 b (bs ++ []) (ground (arith, n)) hb
      ∙ unfold to_bytes in ap (λ (t : List ℕ). b ∷ t) (append-nil bs))
]

-- With an alphabet of at least two different characters, `Encode` ends for every list of bytes,
-- and `Decode` of its text gives back the bytes without the zeros that they begin with.
pub decode-encode :
    (alphabet input : List ℕ)
    → 2 ≤ length alphabet
    → Distinct alphabet
    → All (λ b. b < 256) input
    → (text : List ℕ) × (encode alphabet input ≡ some text)
      × (decode alphabet text ≡ some (strip_zeros input))
unfolding encode decode
decode-encode alphabet input h d hb =
    let v = from_bytes 0 input in
    let (text, e, dec) = encode_loop-Decodes alphabet h d v v (omega arith) in
    (
      text,
      e,
      ap bytes_of (dec 0 0 ∙ ap some (rw (pow-zero (length alphabet)) (omega arith)))
          ∙ ap some (bytes-strip_zeros input hb),
    )
