-- ===== src/Nack/Push.antt =====
-- server/sfu/buffer.go: `clearOldPackets`, and the shape of a buffer.
use peer_calls.Base.{
  ℕ, ◌+◌, ltb, false, ◌≤◌, ◌<◌, ◌≡◌, ◌≢◌, ◌⊎◌, inl, inr, refl, List, [], ◌∷◌, All, arith,
  Option-cases, Option, none, some,
}
use peer_calls.Base.Word.{add16, sub16}
use peer_calls.Nack.{
  Packet, Buffer, new_buffer, stored, max_buffer_ts_delta, ts_delta, range16, cleared, clear_loop,
  clear_old_packets,
}
use peer_calls.Nack.Range.{range16-seq_from, seq_from-ne, seq_from-lt}

-- How a slot of the ring may differ after packets are cleared at time `ts`: not at all, or it is
-- empty and held a packet whose timestamp, as a number, is 180000 or more away from `ts`.
abbrev pub Aged : ℕ → Option Packet → Option Packet → Type 0
Aged ts before after =
    (after ≡ before)
    ⊎ ((after ≡ none)
        × ((q : Packet) × (before ≡ some q)
            × ((ts + 180000 ≤ q.timestamp) ⊎ (q.timestamp + 180000 ≤ ts))))

cleared-Aged :
    (ts : ℕ) (p : Packet) (before : Option Packet)
    → before ≡ some p
    → ltb (ts_delta ts p.timestamp) max_buffer_ts_delta ≡ false
    → Aged ts before none
unfolding ts_delta
cleared-Aged ts p before e old =
    let far : (ts + 180000 ≤ p.timestamp) ⊎ (p.timestamp + 180000 ≤ ts) = ground (arith, old) in
    inr (refl, (p, e, far))

-- The last buffer that the loop reaches keeps what the loop does not write.
clear_loop-Aged :
    (ts : ℕ) (is : List ℕ) (b : Buffer) (k : ℕ)
    → Aged ts (b.packets k) ((clear_loop ts is b).packets k)
unfolding clear_loop
clear_loop-Aged ts [] b k = inl refl
clear_loop-Aged ts (i ∷ is) b k = elim (Option-cases (b.packets i)) [
  | inl e ↦ rw (e, clear_loop) (clear_loop-Aged ts is b k)
  | inr (p, e) ↦ ground (arith, e, clear_loop-Aged ts is (cleared i p b) k)
]

-- A slot that the loop does not visit stays as it was.
clear_loop-keeps :
    (ts : ℕ) (is : List ℕ) (b : Buffer) (k : ℕ)
    → All (λ i. i ≢ k) is
    → (clear_loop ts is b).packets k ≡ b.packets k
unfolding clear_loop
clear_loop-keeps ts [] b k h = refl
clear_loop-keeps ts (i ∷ is) b k (ne, h) = elim (Option-cases (b.packets i)) [
  | inl e ↦ rw (e, clear_loop) (clear_loop-keeps ts is b k h)
  | inr (p, e) ↦ ground (arith, e, clear_loop-keeps ts is (cleared i p b) k h)
]

-- The loop leaves everything but the ring and its two clearing marks alone.
abbrev pub SameMarks : Buffer → Buffer → Type 0
SameMarks a b =
    (a.last_nack_sn ≡ b.last_nack_sn)
    × (a.nack_window_size ≡ b.nack_window_size)
    × (a.ssrc ≡ b.ssrc)
    × (a.initialized ≡ b.initialized)
    × (a.last_push_sn ≡ b.last_push_sn)

clear_loop-SameMarks : (ts : ℕ) (is : List ℕ) (b : Buffer) → SameMarks (clear_loop ts is b) b
unfolding clear_loop
clear_loop-SameMarks ts [] b = (refl, refl, refl, refl, refl)
clear_loop-SameMarks ts (i ∷ is) b = elim (Option-cases (b.packets i)) [
  | inl e ↦ rw (e, clear_loop) (clear_loop-SameMarks ts is b)
  | inr (p, e) ↦ ground (arith, e, clear_loop-SameMarks ts is (cleared i p b))
]

module _ (ts sn : ℕ) (b : Buffer) where
  pub clear_old_packets-Aged :
      (k : ℕ) → Aged ts (b.packets k) ((clear_old_packets ts sn b).packets k)
  unfolding clear_old_packets
  clear_old_packets-Aged k =
      ground (arith, clear_loop-Aged ts (range16 (add16 b.last_clear_sn 1) sn) b k)

  pub clear_old_packets-SameMarks : SameMarks (clear_old_packets ts sn b) b
  unfolding clear_old_packets
  clear_old_packets-SameMarks =
      ground (arith, clear_loop-SameMarks ts (range16 (add16 b.last_clear_sn 1) sn) b)

  -- The loop ends before the packet that was just pushed.
  pub clear_old_packets-keeps :
      b.last_clear_sn < 65536 → sn < 65536 → (clear_old_packets ts sn b).packets sn ≡ b.packets sn
  unfolding clear_old_packets
  clear_old_packets-keeps hc hs =
      ground (arith, clear_loop-keeps ts (range16 (add16 b.last_clear_sn 1) sn) b sn visits)
    where
      visits : All (λ i. i ≢ sn) (range16 (add16 b.last_clear_sn 1) sn)
      visits = rw (range16-seq_from (add16 b.last_clear_sn 1) sn (omega arith) hs) (
          seq_from-ne (sub16 sn (add16 b.last_clear_sn 1)) (add16 b.last_clear_sn 1) sn
            (omega arith) hs (omega arith))

clear_loop-last_clear :
    (ts : ℕ) (is : List ℕ) (b : Buffer)
    → All (λ i. i < 65536) is
    → b.last_clear_sn < 65536
    → (clear_loop ts is b).last_clear_sn < 65536
unfolding clear_loop
clear_loop-last_clear ts [] b h hc = hc
clear_loop-last_clear ts (i ∷ is) b (hi, h) hc = elim (Option-cases (b.packets i)) [
  | inl e ↦ rw (e, clear_loop) (clear_loop-last_clear ts is b h hc)
  | inr (p, e) ↦ ground (arith, e, clear_loop-last_clear ts is (cleared i p b) h hi)
]

pub clear_old_packets-last_clear :
    (ts sn : ℕ) (b : Buffer)
    → b.last_clear_sn < 65536
    → sn < 65536
    → (clear_old_packets ts sn b).last_clear_sn < 65536
unfolding clear_old_packets
clear_old_packets-last_clear ts sn b hc hs =
    ground (arith, clear_loop-last_clear ts (range16 (add16 b.last_clear_sn 1) sn) b bounded hc)
  where
    bounded : All (λ i. i < 65536) (range16 (add16 b.last_clear_sn 1) sn)
    bounded =
        rw (range16-seq_from (add16 b.last_clear_sn 1) sn (omega arith) hs)
          (seq_from-lt (sub16 sn (add16 b.last_clear_sn 1)) (add16 b.last_clear_sn 1) (omega arith))

-- A buffer whose marks are sequence numbers, whose window is the one of `NewBuffer`, and whose
-- packets stand at their own sequence numbers.
pub record IsRing (b : Buffer) : Type 0 where
  pub clear_mark : b.last_clear_sn < 65536
  pub nack_mark : b.last_nack_sn < 65536
  pub window : b.nack_window_size ≡ 17
  pub placed : (k : ℕ) (p : Packet) → b.packets k ≡ some p → p.sequence_number ≡ k

pub new_buffer-IsRing : IsRing new_buffer
unfolding new_buffer
new_buffer-IsRing = record {
  clear_mark = omega arith;
  nack_mark = omega arith;
  window = refl;
  placed = λ k p e. cc;
}

pub stored-IsRing :
    (p : Packet) (b : Buffer) → p.sequence_number < 65536 → IsRing b → IsRing (stored p b)
unfolding stored
stored-IsRing p b h r = record {
  clear_mark = ground arith;
  nack_mark = ground arith;
  window = ground arith;
  placed = λ k q e. ground (arith, r.placed k q);
}
