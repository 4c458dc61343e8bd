-- ===== src/Stats/Receiver.antt =====
-- server/sfu/stats/receiver.go: the members and the senders of a session, by SSRC. The sets of
-- the source are association lists whose values carry nothing.
use native.Mathlib.Decide.{ℕ_discrete}
use peer_calls.Base.{ℕ, List, [], ◌∷◌, length}
use peer_calls.Base.Dict.{set, delete}

abbrev pub SsrcSet : Type 0
SsrcSet = List (ℕ × Unit {0})

pub record Receiver : Type 0 where
  pub members : SsrcSet
  pub senders : SsrcSet

unfoldable pub new_receiver : Receiver
new_receiver = record { members = []; senders = [] }

-- The RTCP packets that the switch knows, with the SSRCs of their reports or their sources, and
-- any other one.
pub data RtcpPacket : Type 0 where
  receiver_report sender_report goodbye : List ℕ → RtcpPacket
  other_packet : RtcpPacket

unfoldable pub receive_rtp : ℕ → Receiver → Receiver
receive_rtp ssrc r = record r {
  members = set ℕ_discrete ssrc tt r.members;
  senders = set ℕ_discrete ssrc tt r.senders;
}

unfoldable pub add_members : List ℕ → SsrcSet → SsrcSet
add_members [] m = m
add_members (ssrc ∷ ssrcs) m = add_members ssrcs (set ℕ_discrete ssrc tt m)

unfoldable pub remove_all : List ℕ → SsrcSet → SsrcSet
remove_all [] m = m
remove_all (ssrc ∷ ssrcs) m = remove_all ssrcs (delete ℕ_discrete ssrc m)

handle_reception_reports : List ℕ → Receiver → Receiver
handle_reception_reports ssrcs r = record r { members = add_members ssrcs r.members }

handle_bye : List ℕ → Receiver → Receiver
handle_bye ssrcs r = record r {
  members = remove_all ssrcs r.members;
  senders = remove_all ssrcs r.senders;
}

unfoldable pub receive_rtcp : RtcpPacket → Receiver → Receiver
unfolding handle_reception_reports handle_bye
receive_rtcp (receiver_report ssrcs) r = handle_reception_reports ssrcs r
receive_rtcp (sender_report ssrcs) r = handle_reception_reports ssrcs r
receive_rtcp (goodbye ssrcs) r = handle_bye ssrcs r
receive_rtcp other_packet r = r

unfoldable pub stats : Receiver → ℕ × ℕ
stats r = (length r.members, length r.senders)
