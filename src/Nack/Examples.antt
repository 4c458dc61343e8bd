-- ===== src/Nack/Examples.antt =====
-- The theorems about the ring of packets and its NACKs at concrete inputs.
use peer_calls.Base.{
  ℕ, ◌*◌, ◌<◌, ◌≡◌, ◌⊎◌, refl, none, some, Option, [], ◌∷◌, arith, ltb, ◌&&◌, leb, if◌then◌else◌,
}
use peer_calls.Base.Word.{sub16}
use peer_calls.Nack.{
  Packet, new_buffer, is_nil, range16, get_nack_pair, push, get_packet, store_packet,
}
use peer_calls.Nack.Range.{seq_from, range16-seq_from, count_lost}
use peer_calls.Nack.Names.{names, get_nack_pair-count, get_nack_pair-names}
use peer_calls.Nack.Push.{Aged, IsRing, new_buffer-IsRing}
use peer_calls.Nack.Ring.{push-IsRing, get_packet-push, push_report}

abbrev packet : ℕ → Packet
packet sn = record { sequence_number = sn; timestamp = 90 * sn; ssrc = 5; payload = 0 }

abbrev nothing : ℕ → Option Packet
nothing _ = none

-- The loop goes round past 65535.
goes_round : range16 65534 2 ≡ 65534 ∷ 65535 ∷ 0 ∷ 1 ∷ []
unfolding seq_from
goes_round = range16-seq_from 65534 2 (omega arith) (omega arith)

range16-seq_from_example : range16 65533 4 ≡ seq_from (sub16 4 65533) 65533
range16-seq_from_example = range16-seq_from 65533 4 (omega arith) (omega arith)

four_lost : (get_nack_pair nothing 65534 2).1 ≡ 4
unfolding count_lost
four_lost = rw (get_nack_pair-count nothing 65534 2 (omega arith) (omega arith)) (rw goes_round)

get_nack_pair-names_example :
    (0 < (get_nack_pair nothing 65534 2).1)
    × (names (get_nack_pair nothing 65534 2).0 1
        ≡ (ltb (sub16 1 65534) (sub16 2 65534) && is_nil (nothing 1)))
get_nack_pair-names_example =
    get_nack_pair-names nothing 65534 2 1 65535 (omega arith) (omega arith) (omega arith)
      (omega arith) (omega arith, omega arith, refl)

push-IsRing_example : IsRing (push (packet 7) new_buffer).0
push-IsRing_example = push-IsRing (packet 7) new_buffer (omega arith) new_buffer-IsRing

get_packet-push_example :
    (get_packet 9 (push (packet 9) (push (packet 7) new_buffer).0).0 ≡ some (packet 9))
    × (◌≡◌ {A = ℕ} 7 9
        ⊎ Aged 810
            (get_packet 7 (push (packet 7) new_buffer).0)
            (get_packet 7 (push (packet 9) (push (packet 7) new_buffer).0).0))
get_packet-push_example =
    get_packet-push (packet 9) (push (packet 7) new_buffer).0 7 (omega arith) push-IsRing_example

push_report_example :
    let s = store_packet (packet 30) (push (packet 7) new_buffer).0 in
    (push (packet 30) (push (packet 7) new_buffer).0).1 ≡ (
      if leb 17 (sub16 30 s.last_nack_sn) && ltb 0 (count_lost s.packets (range16 (sub16 30 17) 30))
      then some (record {
        sender_ssrc = s.ssrc;
        media_ssrc = s.ssrc;
        nacks = (get_nack_pair s.packets (sub16 30 17) 30).0 ∷ [];
      })
      else none)
push_report_example =
    push_report (packet 30) (push (packet 7) new_buffer).0 (omega arith) push-IsRing_example
