-- ===== src/Nack/First.antt =====
-- server/sfu/buffer.go: what the first loop of `getNackPair` finds.
use peer_calls.Base.{
  ℕ, zero, suc, ◌+◌, ◌-◌, ◌%◌, ◌<◌, ◌≡◌, inl, inr, refl, ap, ◌∙◌, true, false, arith, Bool-cases,
  Option, none, some,
}
use peer_calls.Base.Word.{add16}
use peer_calls.Nack.{Packet, is_nil, first_lost}
use peer_calls.Nack.Range.{seq_from, count_lost}

-- What the first loop finds over `n` numbers from `start`: nothing missing, or the first missing
-- one, at offset `j`.
unfoldable pub FoundFirst : (ℕ → Option Packet) → ℕ → ℕ → Option ℕ → Type 0
FoundFirst m n start none = count_lost m (seq_from n start) ≡ 0
FoundFirst m n start (some fsn) =
    (j : ℕ) × (j < n)
    × (fsn ≡ (start + j) % 65536)
    × (is_nil (m fsn) ≡ true)
    × (count_lost m (seq_from n start) ≡ suc (count_lost m (seq_from (n - suc j) (add16 fsn 1))))
    × ((i : ℕ) → i < j → is_nil (m ((start + i) % 65536)) ≡ false)

FoundFirst-suc :
    (m : ℕ → Option Packet) (n start : ℕ) (o : Option ℕ)
    → start < 65536
    → is_nil (m start) ≡ false
    → FoundFirst m n (add16 start 1) o
    → FoundFirst m (suc n) start o
unfolding FoundFirst count_lost seq_from
FoundFirst-suc m n start none hs there h = rw there h
FoundFirst-suc m n start (some fsn) hs there (j, lt, e, gone, c, before) = (
  suc j,
  omega arith,
  omega arith,
  gone,
  rw there (c ∙ ap (λ (k : ℕ). suc (count_lost m (seq_from k (add16 fsn 1)))) (omega arith)),
  earlier,
)
  where
    earlier : (i : ℕ) → i < suc j → is_nil (m ((start + i) % 65536)) ≡ false
    earlier zero l = let z : (start + 0) % 65536 ≡ start = omega arith in rw z there
    earlier (suc i) l =
        let z : (start + suc i) % 65536 ≡ (add16 start 1 + i) % 65536 = omega arith in
        rw z (before i (omega arith))

FoundFirst-here :
    (m : ℕ → Option Packet) (n start : ℕ)
    → start < 65536
    → is_nil (m start) ≡ true
    → FoundFirst m (suc n) start (some start)
unfolding FoundFirst count_lost seq_from
FoundFirst-here m n start hs gone = (
  0,
  omega arith,
  omega arith,
  gone,
  rw gone (ap (λ (k : ℕ). suc (count_lost m (seq_from k (add16 start 1)))) (omega arith)),
  λ i l. absurd (omega arith),
)

pub first_lost-FoundFirst :
    (m : ℕ → Option Packet) (n start : ℕ)
    → start < 65536
    → FoundFirst m n start (first_lost m (seq_from n start))
unfolding first_lost seq_from
first_lost-FoundFirst m zero start hs = unfold FoundFirst count_lost in refl
first_lost-FoundFirst m (suc n) start hs = elim (Bool-cases (is_nil (m start))) [
  | inl gone ↦ rw gone (FoundFirst-here m n start hs gone)
  | inr there ↦ rw there (
      FoundFirst-suc m n start _ hs there (first_lost-FoundFirst m n (add16 start 1) (omega arith)))
]
