-- ===== src/Jitter.antt =====
-- server/sfu/jitter_buffer.go and server/sfu/jitter.go: a buffer for each SSRC, and the handler
-- that answers a NACK from the buffers or passes it on. `NackPair.PacketList` is pion's, and
-- stands as a parameter.
pub mod Found
pub mod Handle
pub mod Keep
mod Examples
use native.Mathlib.Decide.{ℕ_discrete}
use peer_calls.Base.{ℕ, Option, none, some, List, [], ◌∷◌, ◌++◌}
use peer_calls.Base.Dict.{get, set, delete}
use peer_calls.Nack.{Packet, Buffer, Nack, NackPair, new_buffer, push, create_nack_pair}
use peer_calls.Nack

-- `JitterBuffer.buffers`
abbrev pub Buffers : Type 0
Buffers = List (ℕ × Buffer)

abbrev pub buffer_or_new : Option Buffer → Buffer
buffer_or_new none = new_buffer
buffer_or_new (some b) = b

-- `PushRTP`, which is also `NackHandler.HandleRTP`.
unfoldable pub push_rtp : Packet → Buffers → Buffers × Option Nack
push_rtp p bs =
    let (b, nack) = push p (buffer_or_new (get ℕ_discrete p.ssrc bs)) in
    (set ℕ_discrete p.ssrc b bs, nack)

packet_of : Option Buffer → ℕ → Option Packet
packet_of none sn = none
packet_of (some b) sn = Nack.get_packet sn b

unfoldable pub get_packet : ℕ → ℕ → Buffers → Option Packet
unfolding packet_of
get_packet ssrc sn bs = packet_of (get ℕ_discrete ssrc bs) sn

unfoldable pub remove_buffer : ℕ → Buffers → Buffers
remove_buffer ssrc bs = delete ℕ_discrete ssrc bs

-- `NewJitterHandler`: the handlers with and without a jitter buffer.
pub data JitterHandler : Type 0 where
  nack_handler : Buffers → JitterHandler
  noop_handler : JitterHandler

-- The inner loop of `HandleNack` on one pair: the packets found, added to those before, and the
-- numbers not found.
unfoldable pub look_up : Buffers → ℕ → List ℕ → List Packet × List ℕ → List Packet × List ℕ
look_up bs ssrc [] acc = acc
look_up bs ssrc (sn ∷ sns) (found, not_found) = look_up bs ssrc sns (elim (get_packet ssrc sn bs) [
  | none ↦ (found, not_found ++ (sn ∷ []))
  | some p ↦ (found ++ (p ∷ []), not_found)
])

add_actual : List ℕ → List NackPair → List NackPair
add_actual [] nacks = nacks
add_actual (sn ∷ sns) nacks = nacks ++ (create_nack_pair (sn ∷ sns) ∷ [])

unfoldable pub passed_on : Nack → List NackPair → Option Nack
passed_on nack [] = none
passed_on nack (n ∷ ns) = some (record nack { nacks = n ∷ ns })

module _ (packet_list : NackPair → List ℕ) where
  -- The outer loop, on the pair `(rtpPackets, actualNacks)`.
  unfoldable pub look_up_pairs :
      Buffers → ℕ → List NackPair → List Packet × List NackPair → List Packet × List NackPair
  unfolding add_actual
  look_up_pairs bs ssrc [] acc = acc
  look_up_pairs bs ssrc (pair ∷ pairs) (found, nacks) =
      let (found', not_found) = look_up bs ssrc (packet_list pair) (found, []) in
      look_up_pairs bs ssrc pairs (found', add_actual not_found nacks)

  handle_nack_with : Buffers → Nack → List Packet × Option Nack
  unfolding passed_on
  handle_nack_with bs nack =
      let (packets, nacks) = look_up_pairs bs nack.media_ssrc nack.nacks ([], []) in
      (packets, passed_on nack nacks)

  unfoldable pub handle_nack : JitterHandler → Nack → List Packet × Option Nack
  unfolding handle_nack_with
  handle_nack (nack_handler bs) nack = handle_nack_with bs nack
  handle_nack noop_handler nack = ([], none)

unfoldable pub handle_rtp : JitterHandler → Packet → JitterHandler × Option Nack
unfolding push_rtp
handle_rtp (nack_handler bs) p = let (bs', nack) = push_rtp p bs in (nack_handler bs', nack)
handle_rtp noop_handler p = (noop_handler, none)

unfoldable pub handle_remove_buffer : JitterHandler → ℕ → JitterHandler
handle_remove_buffer (nack_handler bs) ssrc = nack_handler (remove_buffer ssrc bs)
handle_remove_buffer noop_handler ssrc = noop_handler
