-- ===== src/Nack/Pair.antt =====
-- server/sfu/buffer.go: the second loop of `getNackPair`, the bits that it sets and what it
-- counts.
use peer_calls.Base.{
  ℕ, zero, suc, ◌+◌, ◌%◌, ◌^◌, ◌≤◌, ◌<◌, ◌≡◌, inl, inr, ap, ◌∙◌, List, [], ◌∷◌, true, false, ◌==◌,
  arith, ◌&&◌, ◌||◌, ltb, leb, Bool-cases, Option,
}
use native.Mathlib.Nat.{pow-le-pow_right}
use peer_calls.Base.Word.{add16, sub16}
use peer_calls.Base.Bits.{bit_at, bit_at-set}
use peer_calls.Nack.{Packet, is_nil, calc_blp, add_blp, mark_lost}
use peer_calls.Nack.Range.{seq_from, count_lost}

pub two_pow_small : (k : ℕ) → k < 16 → 2 ^ k % 65536 ≡ 2 ^ k
two_pow_small k h =
    omega (arith, pow-le-pow_right {n = 2} (omega arith) {i = k} {j = 15} (omega arith))

calc_blp-offset : (fsn k : ℕ) → fsn < 65536 → k < 16 → calc_blp fsn ((fsn + 1 + k) % 65536) ≡ 2 ^ k
unfolding calc_blp
calc_blp-offset fsn k h hk =
    let e : sub16 (sub16 ((fsn + 1 + k) % 65536) fsn) 1 ≡ k = omega arith in
    rw e (two_pow_small k hk)

add_blp-bit :
    (fsn off blp k : ℕ)
    → fsn < 65536
    → off < 16
    → bit_at (add_blp fsn ((fsn + 1 + off) % 65536) blp) k ≡ (bit_at blp k || (k == off))
unfolding add_blp
add_blp-bit fsn off blp k h ho = rw (calc_blp-offset fsn off h ho) (bit_at-set k off blp)

module _ (m : ℕ → Option Packet) (fsn i : ℕ) (is : List ℕ) (blp lost : ℕ) where
  mark_lost_gone :
      is_nil (m i) ≡ true
      → mark_lost m fsn (i ∷ is) (blp, lost) ≡ mark_lost m fsn is (add_blp fsn i blp, lost + 1)
  unfolding mark_lost
  mark_lost_gone e = rw e

  mark_lost_there :
      is_nil (m i) ≡ false → mark_lost m fsn (i ∷ is) (blp, lost) ≡ mark_lost m fsn is (blp, lost)
  unfolding mark_lost
  mark_lost_there e = rw e

-- Bit `k` of the bitmap after the loop from offset `off` over `n` numbers.
pub mark_lost-bits :
    (m : ℕ → Option Packet) (fsn n off blp lost k : ℕ)
    → fsn < 65536
    → off + n ≤ 16
    → bit_at (mark_lost m fsn (seq_from n ((fsn + 1 + off) % 65536)) (blp, lost)).0 k
      ≡ (bit_at blp k || (leb off k && (ltb k (off + n) && is_nil (m ((fsn + 1 + k) % 65536)))))
unfolding mark_lost seq_from
mark_lost-bits m fsn zero off blp lost k h hn = ground arith
mark_lost-bits m fsn (suc n) off blp lost k h hn =
    let i = (fsn + 1 + off) % 65536 in
    let next : add16 i 1 ≡ (fsn + 1 + suc off) % 65536 = omega arith in
    let after = λ (blp' lost' : ℕ).
      ap (λ (j : ℕ). bit_at (mark_lost m fsn (seq_from n j) (blp', lost')).0 k) next
      ∙ mark_lost-bits m fsn n (suc off) blp' lost' k h (omega arith) in
    elim (Bool-cases (is_nil (m i))) [
      | inl gone ↦
          ap (λ (s : ℕ × ℕ). bit_at s.0 k)
            (mark_lost_gone m fsn i (seq_from n (add16 i 1)) blp lost gone)
          ∙ after (add_blp fsn i blp) (lost + 1)
          ∙ ground (arith, add_blp-bit fsn off blp k h (omega arith), gone)
      | inr there ↦
          ap (λ (s : ℕ × ℕ). bit_at s.0 k)
            (mark_lost_there m fsn i (seq_from n (add16 i 1)) blp lost there)
          ∙ after blp lost
          ∙ ground (arith, there)
    ]

pub mark_lost-count :
    (m : ℕ → Option Packet) (fsn : ℕ) (is : List ℕ) (blp lost : ℕ)
    → (mark_lost m fsn is (blp, lost)).1 ≡ lost + count_lost m is
unfolding mark_lost count_lost
mark_lost-count m fsn [] blp lost = omega arith
mark_lost-count m fsn (i ∷ is) blp lost = ground (
  arith,
  mark_lost-count m fsn is (add_blp fsn i blp) (lost + 1),
  mark_lost-count m fsn is blp lost,
)
