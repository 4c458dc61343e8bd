-- ===== src/Nack/Create.antt =====
-- server/sfu/buffer.go: the pair of `CreateNackPair`.
use peer_calls.Base.{
  ℕ, ◌≤◌, ◌<◌, ◌≡◌, ◌∙◌, List, [], ◌∷◌, All, Bool, false, ◌==◌, arith, ◌&&◌, ◌||◌, ltb,
}
use peer_calls.Base.Word.{sub16}
use peer_calls.Base.Bits.{bit_at, bit_at-set, bit_at-zero}
use peer_calls.Nack.{add_blp, calc_blp, add_blps, create_nack_pair}
use peer_calls.Nack.Pair.{two_pow_small}
use peer_calls.Nack.Names.{names}

abbrev pub contains : List ℕ → ℕ → Bool
contains [] x = false
contains (y ∷ ys) x = x == y || contains ys x

-- Numbers that one pair can name: each is one of the 16 that follow the first.
abbrev pub FitsPair : List ℕ → Type 0
FitsPair [] = Unit
FitsPair (h ∷ is) = (h < 65536) × All (λ i. (i < 65536) × (1 ≤ sub16 i h) × (sub16 i h ≤ 16)) is

abbrev reaches : ℕ → List ℕ → ℕ → Bool
reaches h [] k = false
reaches h (i ∷ is) k = k == sub16 (sub16 i h) 1 || reaches h is k

add_blp-bit_at :
    (h i blp k : ℕ)
    → h < 65536
    → i < 65536
    → 1 ≤ sub16 i h
    → sub16 i h ≤ 16
    → bit_at (add_blp h i blp) k ≡ (bit_at blp k || (k == sub16 (sub16 i h) 1))
unfolding add_blp calc_blp
add_blp-bit_at h i blp k hh hi lo hi' =
    rw (two_pow_small (sub16 (sub16 i h) 1) (omega arith)) (bit_at-set k (sub16 (sub16 i h) 1) blp)

add_blps-bit_at :
    (h : ℕ) (is : List ℕ) (blp k : ℕ)
    → h < 65536
    → All (λ i. (i < 65536) × (1 ≤ sub16 i h) × (sub16 i h ≤ 16)) is
    → bit_at (add_blps h is blp) k ≡ (bit_at blp k || reaches h is k)
unfolding add_blps
add_blps-bit_at h [] blp k hh f = ground arith
add_blps-bit_at h (i ∷ is) blp k hh ((a, b, c), f) =
    add_blps-bit_at h is (add_blp h i blp) k hh f
    ∙ ground (arith, add_blp-bit_at h i blp k hh a b c)

-- The offset of `sn` is marked exactly if `sn` is in the list.
reaches-contains :
    (h : ℕ) (is : List ℕ) (sn : ℕ)
    → h < 65536
    → sn < 65536
    → All (λ i. (i < 65536) × (1 ≤ sub16 i h) × (sub16 i h ≤ 16)) is
    → (ltb (sub16 (sub16 sn h) 1) 16 && reaches h is (sub16 (sub16 sn h) 1)) ≡ contains is sn
reaches-contains h [] sn hh hn f = ground arith
reaches-contains h (i ∷ is) sn hh hn ((a, b, c), f) =
    ground (arith, reaches-contains h is sn hh hn f)

-- Where all numbers of a list fit one pair, that is, follow its first number by at most 16, the
-- pair of `CreateNackPair` names a sequence number exactly if it is in the list.
pub create_nack_pair-names :
    (h : ℕ) (is : List ℕ) (sn : ℕ)
    → FitsPair (h ∷ is)
    → sn < 65536
    → names (create_nack_pair (h ∷ is)) sn ≡ contains (h ∷ is) sn
unfolding create_nack_pair names
create_nack_pair-names h is sn (hh, f) hn = ground (
  arith,
  add_blps-bit_at h is 0 (sub16 (sub16 sn h) 1) hh f,
  bit_at-zero (sub16 (sub16 sn h) 1),
  reaches-contains h is sn hh hn f,
)
