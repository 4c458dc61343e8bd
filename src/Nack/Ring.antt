-- ===== src/Nack/Ring.antt =====
-- server/sfu/buffer.go: `Push`, the ring after it and the NACK that it returns.
use peer_calls.Base.{
  ℕ, ◌<◌, ◌≡◌, ◌⊎◌, inl, inr, ap, ◌∙◌, sym, [], ◌∷◌, arith, ltb, leb, ◌&&◌, if◌then◌else◌, Option,
  none, some,
}
use native.Mathlib.Decide.{ℕ_discrete}
use peer_calls.Base.Word.{add16, sub16}
use peer_calls.Nack.{
  Packet, Buffer, range16, stored, store_packet, push, get_packet, full_windows, get_nack_pair,
  get_nack_pairs, pairs_within, report,
}
use peer_calls.Nack.Range.{count_lost}
use peer_calls.Nack.Names.{get_nack_pair-count}
use peer_calls.Nack.Push.{
  Aged, IsRing, stored-IsRing, clear_old_packets-Aged, clear_old_packets-SameMarks,
  clear_old_packets-keeps, clear_old_packets-last_clear,
}

store_packet-IsRing :
    (p : Packet) (b : Buffer) → p.sequence_number < 65536 → IsRing b → IsRing (store_packet p b)
unfolding store_packet
store_packet-IsRing p b h r =
    let c = stored p b in
    let rc = stored-IsRing p b h r in
    let (same_nack, same_window, _, _, _) =
      clear_old_packets-SameMarks p.timestamp p.sequence_number c in
    record {
      clear_mark = clear_old_packets-last_clear p.timestamp p.sequence_number c rc.clear_mark h;
      nack_mark = rw same_nack rc.nack_mark;
      window = same_window ∙ rc.window;
      placed = λ k q e.
          ground (arith, rc.placed k q, clear_old_packets-Aged p.timestamp p.sequence_number c k);
    }

-- A push of a packet with a 16-bit number keeps the shape of the buffer: marks below 65536, a
-- window of 17, and each packet at its own sequence number.
pub push-IsRing :
    (p : Packet) (b : Buffer) → p.sequence_number < 65536 → IsRing b → IsRing (push p b).0
unfolding push
push-IsRing p b h r =
    let s = store_packet-IsRing p b h r in
    record {
      clear_mark = ground (arith, s.clear_mark);
      nack_mark = ground (arith, s.nack_mark);
      window = ground (arith, s.window);
      placed = λ k q e. ground (arith, s.placed k q);
    }

push-packets :
    (p : Packet) (b : Buffer) (k : ℕ) → (push p b).0.packets k ≡ (store_packet p b).packets k
unfolding push
push-packets p b k = ground arith

-- After a push of a packet with a 16-bit number onto a buffer of the shape `IsRing`, the ring has
-- the pushed packet at its sequence number. At any other number it has what it had, or nothing,
-- and then what it had is a packet whose timestamp is 180000 ticks (two seconds of a 90 kHz clock)
-- or more away from the pushed one's, the two compared as numbers, without their wrap at 2^32.
pub get_packet-push :
    (p : Packet) (b : Buffer) (k : ℕ)
    → p.sequence_number < 65536
    → IsRing b
    → (get_packet p.sequence_number (push p b).0 ≡ some p)
      × ((k ≡ p.sequence_number) ⊎ Aged p.timestamp (get_packet k b) (get_packet k (push p b).0))
unfolding get_packet
get_packet-push p b k h r = (kept, other)
  where
    kept : (push p b).0.packets p.sequence_number ≡ some p
    kept =
        push-packets p b p.sequence_number
        ∙ unfold store_packet in
          clear_old_packets-keeps p.timestamp p.sequence_number (stored p b)
            (stored-IsRing p b h r).clear_mark h
          ∙ unfold stored in ground arith

    other : (k ≡ p.sequence_number) ⊎ Aged p.timestamp (b.packets k) ((push p b).0.packets k)
    other = elim (ℕ_discrete k p.sequence_number) [
      | yes e ↦ inl e
      | no n ↦
          let same : (stored p b).packets k ≡ b.packets k = unfold stored in ground arith in
          inr (
            rw (push-packets p b k) (
              unfold store_packet in
              rw same at (clear_old_packets-Aged p.timestamp p.sequence_number (stored p b) k)))
    ]

-- One full window, which is what `Push` asks for, gives the pair of that window or nothing.
get_nack_pairs_window :
    (m : ℕ → Option Packet) (sn : ℕ)
    → sn < 65536
    → let (pair, lost) = get_nack_pair m (sub16 sn 17) sn in
      get_nack_pairs m (sub16 sn 17) sn ≡ ((if ltb 0 lost then pair ∷ [] else []), lost)
unfolding get_nack_pairs
get_nack_pairs_window m sn h =
    let delta : sub16 sn (sub16 sn 17) ≡ 17 = omega arith in
    let back : add16 (sub16 sn 17) 17 ≡ sn = omega arith in
    ap (pairs_within m (sub16 sn 17) sn) delta
    ∙ unfold pairs_within full_windows in rw back (ground arith)

-- For a buffer of the shape `IsRing` and a packet with a 16-bit number: a push returns a NACK
-- exactly where, after the packet is stored and old ones are cleared, at least 17 numbers have
-- passed since the last window and one of the 17 before the pushed packet is missing from the
-- ring. It then carries one pair, the one of that window.
pub push_report :
    (p : Packet) (b : Buffer)
    → p.sequence_number < 65536
    → IsRing b
    → let sn = p.sequence_number in
      let s = store_packet p b in
      (push p b).1 ≡ (
        if leb 17 (sub16 sn s.last_nack_sn)
          && ltb 0 (count_lost s.packets (range16 (sub16 sn 17) sn))
        then some (record {
          sender_ssrc = s.ssrc;
          media_ssrc = s.ssrc;
          nacks = (get_nack_pair s.packets (sub16 sn 17) sn).0 ∷ [];
        })
        else none)
unfolding push
push_report p b h r =
    let sn = p.sequence_number in
    let s = store_packet p b in
    rw
      (
        (store_packet-IsRing p b h r).window,
        get_nack_pairs_window s.packets sn h,
        sym (get_nack_pair-count s.packets (sub16 sn 17) sn (omega arith) h),
      )
      (unfold report in ground arith)
