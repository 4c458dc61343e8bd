-- ===== src/Stats/Source.antt =====
-- server/sfu/stats/source.go: the state of one RTP source, after RFC 3550 appendices A.1, A.3 and
-- A.8. Fields of type uint16 are below 65536, those of type uint32 below 2 ^ 32.
use peer_calls.Base.{ℕ, ◌+◌, ◌-◌, ◌*◌, ◌/◌, ◌%◌, Bool, true, false, ltb, leb, ◌==◌, if◌then◌else◌}
use peer_calls.Base.Word.{add16, sub16, add32, sub32}
use peer_calls.Stats.Ntp.{new_ntp_time, middle}

abbrev pub rtp_seq_mod : ℕ
rtp_seq_mod = 65536

abbrev pub max_dropout : ℕ
max_dropout = 3000

abbrev pub max_misorder : ℕ
max_misorder = 100

abbrev pub min_sequential : ℕ
min_sequential = 2

pub record Source : Type 0 where
  pub ssrc : ℕ
  pub last_sender_report : ℕ
  pub max_seq : ℕ
  pub cycles : ℕ
  pub base_seq : ℕ
  pub bad_seq : ℕ
  pub probation : ℕ
  pub received : ℕ
  pub expected_prior : ℕ
  pub received_prior : ℕ
  pub transit : ℕ
  pub jitter : ℕ

unfoldable pub new_source : ℕ → Source
new_source ssrc = record {
  ssrc = ssrc;
  last_sender_report = 0;
  max_seq = 0;
  cycles = 0;
  base_seq = 0;
  bad_seq = 0;
  probation = 0;
  received = 0;
  expected_prior = 0;
  received_prior = 0;
  transit = 0;
  jitter = 0;
}

unfoldable pub init_seq : ℕ → Source → Source
init_seq seq s = record s {
  base_seq = seq;
  max_seq = seq;
  bad_seq = rtp_seq_mod + 1;
  cycles = 0;
  received = 0;
  received_prior = 0;
  expected_prior = 0;
}

-- `s.received++; return true`, at the end of `updateSeq` and on the end of the probation.
count_packet : Source → Source × Bool
count_packet s = (record s { received = add32 s.received 1 }, true)

-- The case `s.probation != 0`.
on_probation : ℕ → Source → Source × Bool
unfolding init_seq count_packet
on_probation seq s =
    if seq == add16 s.max_seq 1
    then (let s' = record s { probation = s.probation - 1; max_seq = seq } in
        if s.probation - 1 == 0 then count_packet (init_seq seq s') else (s', false))
    else (record s { probation = min_sequential - 1; max_seq = seq }, false)

-- The case `udelta < maxDropout`.
in_order : ℕ → Source → Source × Bool
unfolding count_packet
in_order seq s = count_packet (record s {
  cycles = (if ltb seq s.max_seq then add32 s.cycles rtp_seq_mod else s.cycles);
  max_seq = seq;
})

-- The case of a very large jump. `(seq + 1) & (rtpSeqMod - 1)` is the remainder by 2 ^ 16.
large_jump : ℕ → Source → Source × Bool
unfolding count_packet init_seq
large_jump seq s =
    if seq == s.bad_seq
    then count_packet (init_seq seq s)
    else (record s { bad_seq = (seq + 1) % rtp_seq_mod }, false)

unfoldable pub update_seq : ℕ → Source → Source × Bool
unfolding on_probation in_order large_jump count_packet
update_seq seq s =
    let udelta = sub16 seq s.max_seq in
    if s.probation == 0
    then (if ltb udelta max_dropout
        then in_order seq s
        else if leb udelta (rtp_seq_mod - max_misorder)
        then large_jump seq s
        else count_packet s)
    else on_probation seq s

unfoldable pub update_jitter : ℕ → ℕ → Source → Source
update_jitter packet_ts arrival_ts s =
    let transit =
      (if ltb arrival_ts packet_ts
        then sub32 packet_ts arrival_ts
        else sub32 arrival_ts packet_ts) in
    let d = sub32 transit s.transit in
    record s { transit = transit; jitter = add32 s.jitter (sub32 d (add32 s.jitter 8 / 16)) }

-- `rtcp.ReceptionReport`
pub record ReceptionReport : Type 0 where
  pub ssrc : ℕ
  pub fraction_lost : ℕ
  pub total_lost : ℕ
  pub last_sequence_number : ℕ
  pub jitter : ℕ
  pub last_sender_report : ℕ
  pub delay : ℕ

abbrev pub expected : Source → ℕ
expected s = add32 (sub32 (add32 s.cycles s.max_seq) s.base_seq) 1

-- `lostInterval <= 0` of an unsigned number is `lostInterval == 0`.
unfoldable pub fraction_lost : ℕ → ℕ → ℕ
fraction_lost expected_interval lost_interval =
    if expected_interval == 0
    then 0
    else if lost_interval == 0
    then 0
    else lost_interval * 256 % 4294967296 / expected_interval % 256

-- The report's `LastSenderReport` and `Delay`, which may be swapped on the way.
unfoldable pub report_times : ℕ → ℕ → ℕ × ℕ
report_times last_sender_report now =
    let last = middle last_sender_report in
    let now' = middle (new_ntp_time now) in
    if ltb 0 last
    then (if ltb now' last then (now', sub32 last now') else (last, sub32 now' last))
    else (last, 0)

unfoldable pub reception_report : ℕ → Source → Source × ReceptionReport
reception_report now s =
    let expected_interval = sub32 (expected s) s.expected_prior in
    let received_interval = sub32 s.received s.received_prior in
    let (last, delay) = report_times s.last_sender_report now in
    (
      record s { expected_prior = expected s; received_prior = s.received },
      record {
        ssrc = s.ssrc;
        fraction_lost = fraction_lost expected_interval (sub32 expected_interval received_interval);
        total_lost = sub32 (expected s) s.received;
        last_sequence_number = add32 s.cycles s.max_seq;
        jitter = s.jitter / 16;
        last_sender_report = last;
        delay = delay;
      },
    )

unfoldable pub handle_sender_report : ℕ → Source → Source
handle_sender_report ntp_time s = record s { last_sender_report = ntp_time }

-- `HandleRTP`, of a packet's sequence number and timestamp.
unfoldable pub handle_rtp : ℕ → ℕ → ℕ → Source → Source
unfolding update_jitter update_seq
handle_rtp seq packet_ts now s =
    update_jitter packet_ts (middle (new_ntp_time now)) (update_seq seq s).0
