-- ===== src/Nack/Range.antt =====
-- server/sfu/buffer.go: the sequence numbers that its loops run over.
use peer_calls.Base.{
  ℕ, zero, suc, ◌≤◌, ◌<◌, ◌≡◌, ◌≢◌, ap, List, [], ◌∷◌, All, ◌==◌, arith, if◌then◌else◌, Bool-cases,
  inl, inr, Option,
}
use peer_calls.Base.Word.{add16, sub16}
use peer_calls.Nack.{Packet, is_nil, count_up, range16}

unfoldable pub seq_from : ℕ → ℕ → List ℕ
seq_from zero i = []
seq_from (suc n) i = i ∷ seq_from n (add16 i 1)

sub16-next :
    (i end : ℕ) → i < 65536 → end < 65536 → i ≢ end → sub16 end i ≡ suc (sub16 end (add16 i 1))
sub16-next i end hi he ne = omega arith

count_up-seq_from :
    (fuel i end : ℕ)
    → i < 65536
    → end < 65536
    → sub16 end i ≤ fuel
    → count_up fuel i end ≡ seq_from (sub16 end i) i
unfolding count_up seq_from
count_up-seq_from zero i end hi he h = let e : sub16 end i ≡ 0 = omega arith in rw e
count_up-seq_from (suc fuel) i end hi he h = elim (Bool-cases (i == end)) [
  | inl same ↦ let e : sub16 end i ≡ 0 = ground arith in rw (same, e)
  | inr other ↦
      let step : sub16 end i ≡ suc (sub16 end (add16 i 1)) =
        sub16-next i end hi he (λ e. ground arith) in
      rw (other, step)
        (ap (λ (r : List ℕ). i ∷ r)
          (count_up-seq_from fuel (add16 i 1) end (omega arith) he (omega arith)))
]

-- The fuel of `range16` is enough: from one 16-bit number to another the loop ends by its test,
-- after as many rounds as they are apart modulo 2 ^ 16, and has gone through the numbers from the
-- first one on, in order, past 65535 to 0 where it must.
pub range16-seq_from :
    (start end : ℕ)
    → start < 65536
    → end < 65536
    → range16 start end ≡ seq_from (sub16 end start) start
unfolding range16
range16-seq_from start end hs he = count_up-seq_from 65536 start end hs he (omega arith)

pub seq_from-lt : (n i : ℕ) → i < 65536 → All (λ k. k < 65536) (seq_from n i)
unfolding seq_from
seq_from-lt zero i h = tt
seq_from-lt (suc n) i h = (h, seq_from-lt n (add16 i 1) (omega arith))

-- The end of a loop is none of its values.
pub seq_from-ne :
    (n i end : ℕ) → i < 65536 → end < 65536 → n ≤ sub16 end i → All (λ k. k ≢ end) (seq_from n i)
unfolding seq_from
seq_from-ne zero i end hi he h = tt
seq_from-ne (suc n) i end hi he h =
    (omega arith, seq_from-ne n (add16 i 1) end (omega arith) he (omega arith))

-- How many of the packets are missing.
unfoldable pub count_lost : (ℕ → Option Packet) → List ℕ → ℕ
count_lost m [] = 0
count_lost m (i ∷ is) = if is_nil (m i) then suc (count_lost m is) else count_lost m is
