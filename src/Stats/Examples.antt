-- ===== src/Stats/Examples.antt =====
-- The theorems about the statistics of a source at concrete inputs.
use peer_calls.Base.{◌+◌, ◌≡◌, ◌≤◌, refl, [], ◌∷◌, arith, true}
use peer_calls.Base.Word.{add16}
use peer_calls.Stats.Ntp.{new_ntp_time, time}
use peer_calls.Stats.Source.{Source}
use peer_calls.Stats.Receiver.{new_receiver}
use peer_calls.Stats.Clock.{time-new_ntp_time}
use peer_calls.Stats.Sequence.{IsSource, extended_max, run_of, update_all, update_all-run}
use peer_calls.Stats.Members.{has, rtp, receive_all, receive_lem}

-- A source whose numbers are about to begin a second round, with two duplicates.
abbrev near_end : Source
near_end = record {
  ssrc = 5;
  last_sender_report = 0;
  max_seq = 65535;
  cycles = 0;
  base_seq = 65530;
  bad_seq = 65537;
  probation = 0;
  received = 8;
  expected_prior = 0;
  received_prior = 0;
  transit = 0;
  jitter = 0;
}

near_end-IsSource : IsSource near_end
near_end-IsSource = ground arith

update_all-run_example :
    let s' = update_all (run_of 10 (add16 65535 1)) near_end in
    (extended_max s' ≡ extended_max near_end + 10)
    × (s'.received ≡ near_end.received + 10)
    × (s'.base_seq ≡ near_end.base_seq)
    × (s'.expected_prior ≡ near_end.expected_prior)
    × (s'.received_prior ≡ near_end.received_prior)
    × IsSource s'
update_all-run_example =
    update_all-run 10 near_end near_end-IsSource refl (omega arith) (omega arith)

four_sends : has (receive_all (rtp 4 ∷ []) new_receiver).senders 4 ≡ true
unfolding receive_all
four_sends = ground (arith, receive_lem (rtp 4) new_receiver 4)

time-new_ntp_time_example :
    (time (new_ntp_time 1234567890) ≤ 1234567890)
    × (1234567890 ≤ time (new_ntp_time 1234567890) + 1)
time-new_ntp_time_example = time-new_ntp_time 1234567890 (omega arith)
