-- ===== src/Stats/Report.antt =====
-- server/sfu/stats/source.go: reception reports.
use peer_calls.Base.{ℕ, ◌+◌, ◌-◌, ◌*◌, ◌/◌, ◌≤◌, ◌<◌, ◌≡◌, ◌∙◌, arith, ◌==◌, if◌then◌else◌}
use native.Mathlib.Decide.{ℕ_discrete}
use native.Mathlib.Nat.{div-eq_of_eq-mul_left, div-lt_iff_lt-mul}
use peer_calls.Base.Word.{add16}
use peer_calls.Stats.Source.{Source, expected, fraction_lost, init_seq, reception_report}
use peer_calls.Stats.Sequence.{IsSource, extended_max, run_of, update_all, update_all-run}

clean_report :
    (now seq n : ℕ) (s : Source)
    → seq < 65536
    → n + 200000 < 4294967296
    → extended_max s ≡ seq + n
    → s.received ≡ n + 1
    → s.base_seq ≡ seq
    → s.expected_prior ≡ 0
    → s.received_prior ≡ 0
    → IsSource s
    → let (s2, report) = reception_report now s in
      (report.total_lost ≡ 0)
      × (report.fraction_lost ≡ 0)
      × (report.last_sequence_number ≡ seq + n)
      × (s2.expected_prior ≡ n + 1)
      × (s2.received_prior ≡ n + 1)
unfolding reception_report fraction_lost
clean_report now seq n s h hn ext rec base ep rp v = ground arith

-- After a source without probation starts at `seq`, and `n` packets in a row follow, fewer than
-- 32 bits can count, a report says that nothing was lost, names the extended highest sequence
-- number, and remembers the `n + 1` packets as expected and received.
pub lossless_report :
    (now seq n : ℕ) (s : Source)
    → seq < 65536
    → s.probation ≡ 0
    → n + 200000 < 4294967296
    → let s1 = record (init_seq seq s) { received = 1 } in
      let (s2, report) = reception_report now (update_all (run_of n (add16 seq 1)) s1) in
      (report.total_lost ≡ 0)
      × (report.fraction_lost ≡ 0)
      × (report.last_sequence_number ≡ seq + n)
      × (s2.expected_prior ≡ n + 1)
      × (s2.received_prior ≡ n + 1)
unfolding init_seq
lossless_report now seq n s h p hn =
    let s1 = record (init_seq seq s) { received = 1 } in
    let (ext, rec, base, ep, rp, v) =
      update_all-run n s1 (ground arith) p (omega arith) (omega arith) in
    clean_report now seq n (update_all (run_of n (add16 seq 1)) s1) h (omega arith)
      (ext ∙ omega arith) (rec ∙ omega arith) base ep rp v

-- A second report with no packet in between says that nothing was lost meanwhile, and changes no
-- further state.
pub reception_report_twice :
    (now later : ℕ) (s : Source)
    → s.received < 4294967296
    → let (s1, first) = reception_report now s in
      let (s2, second) = reception_report later s1 in
      (s2 ≡ s1) × (second.fraction_lost ≡ 0) × (second.total_lost ≡ first.total_lost)
unfolding reception_report fraction_lost
reception_report_twice now later s h = ground arith

-- Where duplicates arrive and more packets are received than expected, the loss is not negative
-- and not cut to 24 bits: it wraps, to 2 ^ 32 less the packets received too many.
pub duplicates_wrap :
    (now d : ℕ) (s : Source)
    → 0 < d
    → s.received ≡ expected s + d
    → s.received < 4294967296
    → (reception_report now s).1.total_lost ≡ 4294967296 - d
unfolding reception_report
duplicates_wrap now d s pos e h = ground arith

-- Where the counters of an interval have not wrapped and it is shorter than 2 ^ 24 packets, the
-- fraction is the part lost of the interval in 256ths, rounded down; if every packet of it is lost,
-- it is 0.
pub fraction_lost_lem :
    (wanted lost : ℕ)
    → 0 < wanted
    → lost ≤ wanted
    → wanted < 16777216
    → fraction_lost wanted lost ≡ (if lost == wanted then 0 else lost * 256 / wanted)
unfolding fraction_lost
fraction_lost_lem wanted lost pos le h = elim (ℕ_discrete lost wanted) [
  | yes e ↦
      let all : lost * 256 / wanted ≡ 256 = div-eq_of_eq-mul_left pos (omega (arith, e)) in
      ground (arith, all)
  | no n ↦
      let part : lost * 256 / wanted < 256 =
        (div-lt_iff_lt-mul {k = wanted} {x = lost * 256} {y = 256} pos).1 (omega arith) in
      ground (arith, part)
]
