-- ===== src/Nack/Names.antt =====
-- server/sfu/buffer.go: what the pair of `getNackPair` names, and what it counts.
use peer_calls.Base.{
  ℕ, zero, suc, ◌+◌, ◌-◌, ◌%◌, ◌≤◌, ◌<◌, ◌≡◌, refl, ap, ◌∙◌, sym, List, Bool, true, false, ◌==◌,
  arith, ◌&&◌, ◌||◌, ltb, Option, none, some,
}
use native.Mathlib.Decide.{dec_lt}
use peer_calls.Base.Word.{add16, sub16}
use peer_calls.Base.Bits.{bit_at, bit_at-zero}
use peer_calls.Nack.{Packet, NackPair, is_nil, range16, mark_lost, nack_pair_from, get_nack_pair}
use peer_calls.Nack.Range.{seq_from, range16-seq_from, count_lost}
use peer_calls.Nack.First.{FoundFirst, first_lost-FoundFirst}
use peer_calls.Nack.Pair.{mark_lost-bits, mark_lost-count}

-- What a NACK pair says of a sequence number, as RFC 4585 defines it: it names the packet id, and
-- the number `d + 1` past it where bit `d` of the mask is set.
unfoldable pub names : NackPair → ℕ → Bool
names pair sn =
    sn == pair.packet_id
    || (ltb (sub16 (sub16 sn pair.packet_id) 1) 16
        && bit_at pair.lost_packets (sub16 (sub16 sn pair.packet_id) 1))

rest-range :
    (start end j fsn : ℕ)
    → start < 65536
    → end < 65536
    → j < sub16 end start
    → fsn ≡ (start + j) % 65536
    → range16 (add16 fsn 1) end ≡ seq_from (sub16 end start - suc j) (add16 fsn 1)
rest-range start end j fsn hs he lj e =
    let many : sub16 end (add16 fsn 1) ≡ sub16 end start - suc j = omega arith in
    range16-seq_from (add16 fsn 1) end (omega arith) he
    ∙ ap (λ (n : ℕ). seq_from n (add16 fsn 1)) many

second_loop-range :
    (start end j : ℕ)
    → start < 65536
    → end < 65536
    → j < sub16 end start
    → let fsn = (start + j) % 65536 in
      range16 (add16 fsn 1) end ≡ seq_from (sub16 end start - suc j) ((fsn + 1 + 0) % 65536)
second_loop-range start end j hs he lj =
    let fsn = (start + j) % 65536 in
    let from : add16 fsn 1 ≡ (fsn + 1 + 0) % 65536 = omega arith in
    rest-range start end j fsn hs he lj refl
    ∙ ap (λ (i : ℕ). seq_from (sub16 end start - suc j) i) from

-- The bits that the second loop sets, over a window from `start` with the first hole at `j`.
second_loop-bits :
    (m : ℕ → Option Packet) (start end j k : ℕ)
    → start < 65536
    → end < 65536
    → sub16 end start ≤ 17
    → j < sub16 end start
    → let fsn = (start + j) % 65536 in
      bit_at (mark_lost m fsn (range16 (add16 fsn 1) end) (0, 1)).0 k
      ≡ (ltb k (sub16 end start - suc j) && is_nil (m ((fsn + 1 + k) % 65536)))
second_loop-bits m start end j k hs he small lj =
    let fsn = (start + j) % 65536 in
    ap (λ (l : List ℕ). bit_at (mark_lost m fsn l (0, 1)).0 k)
      (second_loop-range start end j hs he lj)
    ∙ mark_lost-bits m fsn (sub16 end start - suc j) 0 0 1 k (omega arith) (omega arith)
    ∙ ground (arith, bit_at-zero k)

offset : (start sn : ℕ) → start < 65536 → sn < 65536 → sn ≡ (start + sub16 sn start) % 65536
offset start sn hs hn = omega arith

pair_from-names :
    (m : ℕ → Option Packet) (start end j sn : ℕ)
    → start < 65536
    → end < 65536
    → sn < 65536
    → sub16 end start ≤ 17
    → j < sub16 end start
    → is_nil (m ((start + j) % 65536)) ≡ true
    → ((i : ℕ) → i < j → is_nil (m ((start + i) % 65536)) ≡ false)
    → names (nack_pair_from m end (some ((start + j) % 65536))).0 sn
      ≡ (ltb (sub16 sn start) (sub16 end start) && is_nil (m sn))
unfolding names nack_pair_from
pair_from-names m start end j sn hs he hn small lj gone before = elim (dec_lt (sub16 sn start) j) [
  | yes l ↦
      let same : is_nil (m sn) ≡ false =
        ap (λ (t : ℕ). is_nil (m t)) (offset start sn hs hn) ∙ before (sub16 sn start) l in
      ground (arith, same)
  | no n1 ↦ elim (dec_lt j (sub16 sn start)) [
    | yes l ↦
        let fsn = (start + j) % 65536 in
        let d = sub16 (sub16 sn fsn) 1 in
        let e : (fsn + 1 + d) % 65536 ≡ sn = omega arith in
        let far : d ≡ sub16 sn start - suc j = omega arith in
        let bits =
          second_loop-bits m start end j d hs he small lj
          ∙ ap (λ (t : ℕ). ltb d (sub16 end start - suc j) && is_nil (m t)) e in
        ground (arith, bits, far)
    | no n2 ↦
        let e : (start + j) % 65536 ≡ sn = omega arith in
        let same : is_nil (m sn) ≡ true = ap (λ (t : ℕ). is_nil (m t)) (sym e) ∙ gone in
        ground (arith, same, e)
  ]
]

count-FoundFirst :
    (m : ℕ → Option Packet) (start end : ℕ) (o : Option ℕ)
    → start < 65536
    → end < 65536
    → FoundFirst m (sub16 end start) start o
    → (nack_pair_from m end o).1 ≡ count_lost m (seq_from (sub16 end start) start)
unfolding FoundFirst nack_pair_from
count-FoundFirst m start end none hs he h = sym h
count-FoundFirst m start end (some fsn) hs he (j, lt, e, gone, c, before) =
    mark_lost-count m fsn (range16 (add16 fsn 1) end) 0 1
    ∙ ap (λ (l : List ℕ). 1 + count_lost m l) (rest-range start end j fsn hs he lt e)
    ∙ omega (arith, c)

names-FoundFirst :
    (m : ℕ → Option Packet) (start end sn : ℕ) (o : Option ℕ)
    → start < 65536
    → end < 65536
    → sn < 65536
    → sub16 end start ≤ 17
    → FoundFirst m (sub16 end start) start o
    → 0 < (nack_pair_from m end o).1
    → names (nack_pair_from m end o).0 sn
      ≡ (ltb (sub16 sn start) (sub16 end start) && is_nil (m sn))
unfolding FoundFirst
names-FoundFirst m start end sn none hs he hn small f pos =
    absurd (unfold nack_pair_from in omega arith)
names-FoundFirst m start end sn (some fsn) hs he hn small (j, lt, e, gone, c, before) pos =
    rw e (pair_from-names m start end j sn hs he hn small lt (rw e at gone) before)

-- The numbers that `getNackPair` counts are the missing ones of its window, for every window.
pub get_nack_pair-count :
    (m : ℕ → Option Packet) (start end : ℕ)
    → start < 65536
    → end < 65536
    → (get_nack_pair m start end).1 ≡ count_lost m (range16 start end)
unfolding get_nack_pair
get_nack_pair-count m start end hs he =
    let r = range16-seq_from start end hs he in
    rw r (count-FoundFirst m start end _ hs he (first_lost-FoundFirst m (sub16 end start) start hs))

lost-count :
    (m : ℕ → Option Packet) (n start i : ℕ)
    → i < n
    → start < 65536
    → is_nil (m ((start + i) % 65536)) ≡ true
    → 0 < count_lost m (seq_from n start)
unfolding seq_from count_lost
lost-count m zero start i l hs gone = absurd (omega arith)
lost-count m (suc n) start zero l hs gone =
    let same : start ≡ (start + 0) % 65536 = omega arith in
    rw (ap (λ (t : ℕ). is_nil (m t)) same ∙ gone) (omega arith)
lost-count m (suc n) start (suc i) l hs gone =
    let same : (add16 start 1 + i) % 65536 ≡ (start + suc i) % 65536 = omega arith in
    let later =
      lost-count m n (add16 start 1) i (omega arith) (omega arith)
        (ap (λ (t : ℕ). is_nil (m t)) same ∙ gone) in
    ground (arith, later)

pair-names :
    (m : ℕ → Option Packet) (start end sn : ℕ)
    → start < 65536
    → end < 65536
    → sn < 65536
    → sub16 end start ≤ 17
    → 0 < (get_nack_pair m start end).1
    → names (get_nack_pair m start end).0 sn
      ≡ (ltb (sub16 sn start) (sub16 end start) && is_nil (m sn))
unfolding get_nack_pair
pair-names m start end sn hs he hn small pos =
    let r = range16-seq_from start end hs he in
    rw r (
      names-FoundFirst m start end sn _ hs he hn small
        (first_lost-FoundFirst m (sub16 end start) start hs) (rw r at pos))

-- A number of the window is missing.
abbrev pub Lost : (ℕ → Option Packet) → ℕ → ℕ → ℕ → Type 0
Lost m start end g = (g < 65536) × (sub16 g start < sub16 end start) × (is_nil (m g) ≡ true)

Lost-get_nack_pair :
    (m : ℕ → Option Packet) (start end g : ℕ)
    → start < 65536
    → end < 65536
    → Lost m start end g
    → 0 < (get_nack_pair m start end).1
Lost-get_nack_pair m start end g hs he (hg, l, gone) =
    let same = ap (λ (t : ℕ). is_nil (m t)) (sym (offset start g hs hg)) ∙ gone in
    let many = lost-count m (sub16 end start) start (sub16 g start) l hs same in
    let e =
      get_nack_pair-count m start end hs he
      ∙ ap (count_lost m) (range16-seq_from start end hs he) in
    omega (arith, e, many)

-- For a window of at most 17 of the 16-bit numbers, from `start` to before `end`, in which some
-- number `g` is missing: `getNackPair` counts something missing, and the pair that it returns names
-- exactly the missing numbers of the window, and nothing outside it.
pub get_nack_pair-names :
    (m : ℕ → Option Packet) (start end sn g : ℕ)
    → start < 65536
    → end < 65536
    → sn < 65536
    → sub16 end start ≤ 17
    → Lost m start end g
    → (0 < (get_nack_pair m start end).1)
      × (names (get_nack_pair m start end).0 sn
          ≡ (ltb (sub16 sn start) (sub16 end start) && is_nil (m sn)))
get_nack_pair-names m start end sn g hs he hn small lost =
    let pos = Lost-get_nack_pair m start end g hs he lost in
    (pos, pair-names m start end sn hs he hn small pos)
