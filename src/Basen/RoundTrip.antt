-- ===== src/Basen/RoundTrip.antt =====
-- server/basen/basen.go: the loop of `Decode` after the loop of `Encode`.
use native.Mathlib.Nat.{div-add-mod, pow-suc, div-lt_self, mod-lt}
use native.Mathlib.Numerals.{add-one}
use peer_calls.Base.{
  ℕ, zero, suc, ◌+◌, ◌*◌, ◌/◌, ◌%◌, ◌^◌, ◌≤◌, ◌≡◌, ap, ◌∙◌, some, List, [], ◌∷◌, length, arith,
  Bool-cases, inl, inr, ◌==◌, true, false,
}
use peer_calls.Basen.{char_at, encode_loop, rune_to_value, decode_loop}
use peer_calls.Basen.Alphabet.{Distinct, rune_to_value-char_at}

-- Digits are worth what their positions say.
digit_value : (v n i acc : ℕ) → acc + (0 + v % n) * n ^ i + v / n * n ^ (i + 1) ≡ acc + v * n ^ i
digit_value v n i acc = omega (
  arith,
  ap (λ (t : ℕ). t * n ^ i) (div-add-mod v n),
  ap (λ (t : ℕ). v / n * t) (ap (λ (e : ℕ). n ^ e) (add-one i) ∙ pow-suc n i),
)

no_digits : (v w acc : ℕ) → (v == 0) ≡ true → some acc ≡ some (acc + v * w)
no_digits v w acc z = let e : v ≡ 0 = ground (arith, z) in ap some (rw e (omega arith))

smaller_value : (fuel v n : ℕ) → 2 ≤ n → v ≤ suc fuel → (v == 0) ≡ false → v / n ≤ fuel
smaller_value fuel v n h le nz = omega (arith, div-lt_self {n = v} {k = n} (ground (arith, nz)) h)

module _ (alphabet : List ℕ) (h : 2 ≤ length alphabet) (d : Distinct alphabet) where
  -- Whether the text that stands for `value` is decoded to it, from every position on.
  abbrev pub Decodes : List ℕ → ℕ → Type 0
  Decodes text value =
      (i acc : ℕ)
      → decode_loop (rune_to_value 0 alphabet []) (length alphabet) i acc text
        ≡ some (acc + value * length alphabet ^ i)

  decode_loop_char :
      (text : List ℕ) (value : ℕ)
      → Decodes text (value / length alphabet)
      → Decodes (char_at alphabet (value % length alphabet) ∷ text) value
  unfolding decode_loop
  decode_loop_char text value dec i acc =
      rw
        (
          rune_to_value-char_at alphabet 0 (value % length alphabet) [] d
              (mod-lt value (omega arith)),
          decode_loop,
        )
        (dec (i + 1) (acc + (0 + value % length alphabet) * length alphabet ^ i)
          ∙ ap some (digit_value value (length alphabet) i acc))

  -- The loop of `Encode` ends within its fuel, with a text that stands for the value.
  pub encode_loop-Decodes :
      (fuel value : ℕ)
      → value ≤ fuel
      → (text : List ℕ) × (encode_loop fuel alphabet value ≡ some text) × Decodes text value
  unfolding encode_loop
  encode_loop-Decodes zero value le =
      let z : (value == 0) ≡ true = ground arith in
      ([], rw z, λ i acc. unfold decode_loop in no_digits value (length alphabet ^ i) acc z)
  encode_loop-Decodes (suc fuel) value le = elim (Bool-cases (value == 0)) [
    | inl z ↦ ([], rw z, λ i acc. unfold decode_loop in no_digits value (length alphabet ^ i) acc z)
    | inr n ↦
        let (text, e, dec) =
          encode_loop-Decodes fuel (value / length alphabet)
            (smaller_value fuel value (length alphabet) h le n) in
        (
          char_at alphabet (value % length alphabet) ∷ text,
          rw (n, e),
          decode_loop_char text value dec,
        )
  ]
