-- ===== src/Jitter/Examples.antt =====
-- The theorems about the jitter buffers at concrete inputs.
use peer_calls.Base.{ℕ, ◌+◌, ◌*◌, ◌%◌, ◌≡◌, List, [], ◌∷◌, arith}
use peer_calls.Base.Dict
use peer_calls.Nack.{Packet, Nack, NackPair}
use peer_calls.Nack.Create.{contains}
use peer_calls.Nack.Push.{new_buffer-IsRing}
use peer_calls.Jitter.{Buffers, nack_handler, handle_nack, push_rtp}
use peer_calls.Jitter.Found.{found, missing}
use peer_calls.Jitter.Handle.{names_any, nacks_of, requests, handle_nack_answers}
use peer_calls.Jitter.Keep.{AllRings}

abbrev packet : ℕ → Packet
packet sn = record { sequence_number = sn; timestamp = 90 * sn; ssrc = 5; payload = 0 }

-- The numbers of the pairs with the lowest two bits of the mask set.
abbrev first_three : NackPair → List ℕ
first_three pair = pair.packet_id ∷ (pair.packet_id + 1) % 65536 ∷ (pair.packet_id + 2) % 65536 ∷ []

abbrev request : Nack
request = record {
  sender_ssrc = 5;
  media_ssrc = 5;
  nacks = record { packet_id = 7; lost_packets = 3 } ∷ [];
}

abbrev buffers : Buffers
buffers = (push_rtp (packet 8) []).0

no_buffers : AllRings []
unfolding Dict.get
no_buffers ssrc = new_buffer-IsRing

handle_nack_answers_example :
    let (packets, upstream) = handle_nack first_three (nack_handler buffers) request in
    (packets ≡ found buffers 5 (requests first_three request.nacks))
    × (names_any (nacks_of upstream) 9
        ≡ contains (missing buffers 5 (requests first_three request.nacks)) 9)
handle_nack_answers_example =
    handle_nack_answers first_three buffers request 9 (omega arith) (ground arith)
