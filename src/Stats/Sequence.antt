-- ===== src/Stats/Sequence.antt =====
-- server/sfu/stats/source.go: `updateSeq`, the bounds of the fields, packets in order, restarts of
-- the sender, and the probation.
use peer_calls.Base.{
  ℕ, zero, suc, ◌+◌, ◌%◌, ◌≤◌, ◌<◌, ◌≡◌, ◌≢◌, ◌∙◌, arith, refl, true, false, List, [], ◌∷◌,
}
use mathlib.Core.Path.{subst}
use peer_calls.Base.Word.{add16, sub16, add32}
use peer_calls.Stats.Source.{Source, new_source, init_seq, update_seq, handle_rtp}

-- The ranges of the fields; `cycles` counts whole rounds of 2 ^ 16.
pub record IsSource (s : Source) : Type 0 where
  pub max_seq_range : s.max_seq < 65536
  pub cycles_range : s.cycles < 4294967296
  pub cycles_whole : s.cycles % 65536 ≡ 0
  pub bad_seq_range : s.bad_seq ≤ 65537
  pub base_seq_range : s.base_seq < 65536
  pub received_range : s.received < 4294967296

pub new_source-IsSource : (ssrc : ℕ) → IsSource (new_source ssrc)
unfolding new_source
new_source-IsSource ssrc = ground arith

-- Every packet keeps the ranges.
pub update_seq-IsSource :
    (seq : ℕ) (s : Source) → seq < 65536 → IsSource s → IsSource (update_seq seq s).0
unfolding update_seq
update_seq-IsSource seq s h v = ground arith

-- The highest sequence number seen, counted on over the rounds.
abbrev pub extended_max : Source → ℕ
extended_max s = s.cycles + s.max_seq

-- A packet up to 2999 numbers ahead of the highest is counted, and moves the extended highest
-- number ahead by just that distance, also across the end of a round.
pub update_seq-in_order :
    (seq : ℕ) (s : Source)
    → seq < 65536
    → IsSource s
    → s.probation ≡ 0
    → s.cycles + 65536 < 4294967296
    → sub16 seq s.max_seq < 3000
    → let (s', valid) = update_seq seq s in
      (valid ≡ true)
      × (extended_max s' ≡ extended_max s + sub16 seq s.max_seq)
      × (s'.received ≡ add32 s.received 1)
      × (s'.base_seq ≡ s.base_seq)
      × (s'.max_seq ≡ seq)
      × (s'.expected_prior ≡ s.expected_prior)
      × (s'.received_prior ≡ s.received_prior)
unfolding update_seq
update_seq-in_order seq s h v p c d = ground arith

-- For a source that is not on probation: after a jump by 3000 to 65435 numbers, not to `badSeq`,
-- the first packet is refused and changes only `badSeq`. If the next packet follows it, the source
-- starts anew there, with one packet received.
pub update_seq-restart :
    (seq : ℕ) (s : Source)
    → seq < 65536
    → s.max_seq < 65536
    → s.probation ≡ 0
    → 3000 ≤ sub16 seq s.max_seq
    → sub16 seq s.max_seq < 65436
    → seq ≢ s.bad_seq
    → let (s', valid) = update_seq seq s in
      let (s'', valid') = update_seq (add16 seq 1) s' in
      (valid ≡ false)
      × (s' ≡ record s { bad_seq = add16 seq 1 })
      × (valid' ≡ true)
      × (s'' ≡ record (init_seq (add16 seq 1) s) { received = 1 })
unfolding update_seq init_seq
update_seq-restart seq s h m p lo hi ne = ground arith

-- A packet that comes late, or twice, by at most 99 numbers is counted and changes nothing else.
pub update_seq-late :
    (seq : ℕ) (s : Source)
    → seq < 65536
    → s.max_seq < 65536
    → s.probation ≡ 0
    → 65436 < sub16 seq s.max_seq
    → update_seq seq s ≡ (record s { received = add32 s.received 1 }, true)
unfolding update_seq
update_seq-late seq s h m p lo = ground arith

-- A packet of `HandleRTP`: its sequence number, its timestamp and the time of its arrival.
pub record Arrival : Type 0 where
  pub seq : ℕ
  pub packet_ts : ℕ
  pub now : ℕ

unfoldable pub handle_all : List Arrival → Source → Source
handle_all [] s = s
handle_all (a ∷ more) s = handle_all more (handle_rtp a.seq a.packet_ts a.now s)

update_seq-no_probation :
    (seq : ℕ) (s : Source) → s.probation ≡ 0 → (update_seq seq s).0.probation ≡ 0
unfolding update_seq
update_seq-no_probation seq s p = ground arith

handle_all-no_probation :
    (arrivals : List Arrival) (s : Source) → s.probation ≡ 0 → (handle_all arrivals s).probation ≡ 0
unfolding handle_all handle_rtp
handle_all-no_probation [] s p = p
handle_all-no_probation (a ∷ more) s p =
    handle_all-no_probation more (handle_rtp a.seq a.packet_ts a.now s)
      (update_seq-no_probation a.seq s p)

-- A source of `NewSource` is never on probation, whatever packets arrive: the check that is to
-- wait for two packets in sequence never applies.
pub probation_never :
    (ssrc : ℕ) (arrivals : List Arrival) → (handle_all arrivals (new_source ssrc)).probation ≡ 0
probation_never ssrc arrivals =
    handle_all-no_probation arrivals (new_source ssrc) (unfold new_source in refl)

-- `n` sequence numbers in a row.
unfoldable pub run_of : ℕ → ℕ → List ℕ
run_of zero seq = []
run_of (suc n) seq = seq ∷ run_of n (add16 seq 1)

unfoldable pub update_all : List ℕ → Source → Source
update_all [] s = s
update_all (seq ∷ seqs) s = update_all seqs (update_seq seq s).0

-- What `update_all-run` says of the `n` numbers after `top`, from the state `s1`.
abbrev RunOf : ℕ → Source → Source → ℕ → Type 0
RunOf n s s1 top =
    let s' = update_all (run_of n (add16 top 1)) s1 in
    (extended_max s' ≡ extended_max s + suc n)
    × (s'.received ≡ s.received + suc n)
    × (s'.base_seq ≡ s.base_seq)
    × (s'.expected_prior ≡ s.expected_prior)
    × (s'.received_prior ≡ s.received_prior)
    × IsSource s'

-- For a source whose fields are in range and that is not on probation: `n` packets in a row, from
-- the number after the highest on, are all counted and move the extended highest number by `n`,
-- over any number of rounds that 32 bits can count. The base and the marks of the last report stay,
-- and the fields stay in range.
pub update_all-run :
    (n : ℕ) (s : Source)
    → IsSource s
    → s.probation ≡ 0
    → s.cycles + s.max_seq + n + 65536 < 4294967296
    → s.received + n < 4294967296
    → let s' = update_all (run_of n (add16 s.max_seq 1)) s in
      (extended_max s' ≡ extended_max s + n)
      × (s'.received ≡ s.received + n)
      × (s'.base_seq ≡ s.base_seq)
      × (s'.expected_prior ≡ s.expected_prior)
      × (s'.received_prior ≡ s.received_prior)
      × IsSource s'
unfolding update_all run_of
update_all-run zero s v p c r = ground (arith, v)
update_all-run (suc n) s v p c r =
    let seq = add16 s.max_seq 1 in
    let s1 = (update_seq seq s).0 in
    let (_, ext, rec, base, top, ep, rp) =
      update_seq-in_order seq s (omega arith) v p (omega arith) (omega arith) in
    let v1 = update_seq-IsSource seq s (omega arith) v in
    let (e, q, b, ep', rp', w) =
      update_all-run n s1 v1 (update_seq-no_probation seq s p) (omega arith) (omega arith) in
    subst (RunOf n s s1) top
      (omega (arith, e, ext), omega (arith, q, rec), b ∙ base, ep' ∙ ep, rp' ∙ rp, w)
