-- ===== src/Stats/Members.antt =====
-- server/sfu/stats/receiver.go: the members and the senders of a session.
use native.Mathlib.Decide.{ℕ_discrete}
use peer_calls.Base.{
  ℕ, ◌≡◌, ◌∙◌, arith, refl, true, false, ◌==◌, List, [], ◌∷◌, none, some, ◌||◌, ◌&&◌, not, Bool,
}
use peer_calls.Base.Dict.{
  get, set, delete, get-set_self, get-set_ne, get-delete_self, get-delete_ne,
}
use peer_calls.Stats.Receiver.{
  SsrcSet, Receiver, new_receiver, RtcpPacket, receiver_report, sender_report, goodbye,
  other_packet, receive_rtp, receive_rtcp, add_members, remove_all,
}

-- Whether an SSRC is in a set.
abbrev pub has : SsrcSet → ℕ → Bool
has m k = elim (get ℕ_discrete k m) [ none ↦ false | some _ ↦ true ]

abbrev pub listed : List ℕ → ℕ → Bool
listed [] k = false
listed (x ∷ xs) k = x == k || listed xs k

pub has-set : (m : SsrcSet) (x k : ℕ) → has (set ℕ_discrete x tt m) k ≡ (x == k || has m k)
has-set m x k = elim (ℕ_discrete x k) [
  | yes e ↦ ground (arith, e, get-set_self ℕ_discrete x tt m)
  | no n ↦ ground (arith, n, get-set_ne ℕ_discrete x k tt m n)
]

has-delete : (m : SsrcSet) (x k : ℕ) → has (delete ℕ_discrete x m) k ≡ (not (x == k) && has m k)
has-delete m x k = elim (ℕ_discrete x k) [
  | yes e ↦ ground (arith, e, get-delete_self {V = Unit {0}} ℕ_discrete x m)
  | no n ↦ ground (arith, n, get-delete_ne {V = Unit {0}} ℕ_discrete x k m n)
]

has-add_members :
    (xs : List ℕ) (m : SsrcSet) (k : ℕ) → has (add_members xs m) k ≡ (listed xs k || has m k)
unfolding add_members
has-add_members [] m k = refl
has-add_members (x ∷ xs) m k =
    has-add_members xs (set ℕ_discrete x tt m) k ∙ ground (arith, has-set m x k)

has-remove_all :
    (xs : List ℕ) (m : SsrcSet) (k : ℕ) → has (remove_all xs m) k ≡ (not (listed xs k) && has m k)
unfolding remove_all
has-remove_all [] m k = ground arith
has-remove_all (x ∷ xs) m k =
    has-remove_all xs (delete ℕ_discrete x m) k ∙ ground (arith, has-delete m x k)

-- A packet of a session, on either channel.
pub data Traffic : Type 0 where
  rtp : ℕ → Traffic
  rtcp : RtcpPacket → Traffic

unfoldable pub receive : Traffic → Receiver → Receiver
receive (rtp ssrc) r = receive_rtp ssrc r
receive (rtcp p) r = receive_rtcp p r

unfoldable pub receive_all : List Traffic → Receiver → Receiver
receive_all [] r = r
receive_all (t ∷ ts) r = receive_all ts (receive t r)

-- Whether `k` is in a set after a packet, by what the packet says of it.
abbrev pub joins : Traffic → ℕ → Bool
joins (rtp ssrc) k = ssrc == k
joins (rtcp (receiver_report xs)) k = listed xs k
joins (rtcp (sender_report xs)) k = listed xs k
joins (rtcp (goodbye xs)) k = false
joins (rtcp other_packet) k = false

abbrev pub leaves : Traffic → ℕ → Bool
leaves (rtcp (goodbye xs)) k = listed xs k
leaves _ k = false

abbrev pub sends : Traffic → ℕ → Bool
sends (rtp ssrc) k = ssrc == k
sends _ k = false

-- A packet makes a member of its sender or of those whom it reports on, a sender of the sender of
-- an RTP packet, and takes those who say goodbye out of both sets; all others stay as they were.
pub receive_lem :
    (t : Traffic) (r : Receiver) (k : ℕ)
    → (has (receive t r).members k ≡ (joins t k || (not (leaves t k) && has r.members k)))
      × (has (receive t r).senders k ≡ (sends t k || (not (leaves t k) && has r.senders k)))
unfolding receive receive_rtp receive_rtcp
receive_lem (rtp x) r k =
    (has-set r.members x k ∙ ground arith, has-set r.senders x k ∙ ground arith)
receive_lem (rtcp (receiver_report xs)) r k =
    (has-add_members xs r.members k ∙ ground arith, ground arith)
receive_lem (rtcp (sender_report xs)) r k =
    (has-add_members xs r.members k ∙ ground arith, ground arith)
receive_lem (rtcp (goodbye xs)) r k = (has-remove_all xs r.members k, has-remove_all xs r.senders k)
receive_lem (rtcp other_packet) r k = (ground arith, ground arith)

abbrev pub SendersAreMembers : Receiver → Type 0
SendersAreMembers r = (k : ℕ) → has r.senders k ≡ true → has r.members k ≡ true

receive-SendersAreMembers :
    (t : Traffic) (r : Receiver) → SendersAreMembers r → SendersAreMembers (receive t r)
receive-SendersAreMembers t r h k e = ground (arith, receive_lem t r k, h k, sends_joins t k)
  where
    sends_joins : (t : Traffic) (k : ℕ) → sends t k ≡ true → joins t k ≡ true
    sends_joins (rtp x) k e = e
    sends_joins (rtcp p) k e = cc

receive_all-SendersAreMembers :
    (ts : List Traffic) (r : Receiver) → SendersAreMembers r → SendersAreMembers (receive_all ts r)
unfolding receive_all
receive_all-SendersAreMembers [] r h = h
receive_all-SendersAreMembers (t ∷ ts) r h =
    receive_all-SendersAreMembers ts (receive t r) (receive-SendersAreMembers t r h)

-- Whatever arrives, every sender is a member.
pub senders_are_members :
    (ts : List Traffic) (k : ℕ)
    → has (receive_all ts new_receiver).senders k ≡ true
    → has (receive_all ts new_receiver).members k ≡ true
senders_are_members ts =
    receive_all-SendersAreMembers ts new_receiver (λ k e. unfold new_receiver get in cc)
