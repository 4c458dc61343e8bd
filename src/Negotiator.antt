-- ===== src/Negotiator.antt =====
-- server/wrtcnegotiator.go: who negotiates when. A channel `negotiationDone` is a number, given
-- out by `make` in order; the calls of the peer connection and the callbacks are effects. The
-- results of the peer connection, which are only logged or handed to `onOffer`, are left out.
pub mod Queue
pub mod Rounds
mod Examples
use peer_calls.Base.{
  ℕ, suc, Bool, true, false, Option, none, some, List, [], ◌∷◌, ◌++◌, if◌then◌else◌,
}

-- `TransceiverRequest`, by number.
abbrev pub TransceiverRequest : Type 0
TransceiverRequest = ℕ

pub data SignalingState : Type 0 where
  closed stable other_state : SignalingState

-- `add_transceiver` is the call of `AddTransceiverFromKind`, which may fail: the error is logged.
pub data Effect : Type 0 where
  add_transceiver : TransceiverRequest → Effect
  request_negotiation : Effect
  create_offer : Effect
  close_done : ℕ → Effect

pub record Negotiator : Type 0 where
  pub initiator : Bool
  pub negotiation_done : Option ℕ
  pub next_channel : ℕ
  pub queued_negotiation : Bool
  pub queued_transceiver_requests : List TransceiverRequest

unfoldable pub new_negotiator : Bool → Negotiator
new_negotiator initiator = record {
  initiator = initiator;
  negotiation_done = none;
  next_channel = 0;
  queued_negotiation = false;
  queued_transceiver_requests = [];
}

unfoldable pub close_option : Option ℕ → List Effect
close_option none = []
close_option (some ch) = close_done ch ∷ []

unfoldable pub close_done_channel : Negotiator → Negotiator × List Effect
unfolding close_option
close_done_channel n = (record n { negotiation_done = none }, close_option n.negotiation_done)

abbrev pub additions : List TransceiverRequest → List Effect
additions [] = []
additions (t ∷ ts) = add_transceiver t ∷ additions ts

-- The queue is emptied whether the calls succeed or fail.
unfoldable pub add_queued_transceivers : Negotiator → Negotiator × List Effect
add_queued_transceivers n =
    (record n { queued_transceiver_requests = [] }, additions n.queued_transceiver_requests)

-- `negotiate`, under the lock.
unfoldable pub negotiate_now : Negotiator → Negotiator × List Effect
unfolding add_queued_transceivers
negotiate_now n =
    let (n', added) = add_queued_transceivers n in
    (n', added ++ ((if n.initiator then create_offer else request_negotiation) ∷ []))

unfoldable pub handle_signaling_state_change :
    SignalingState → Negotiator → Negotiator × List Effect
unfolding close_done_channel negotiate_now
handle_signaling_state_change closed n = close_done_channel n
handle_signaling_state_change stable n =
    if n.queued_negotiation
    then negotiate_now (record n { queued_negotiation = false })
    else close_done_channel n
handle_signaling_state_change other_state n = (n, [])

unfoldable pub negotiate_if : Option ℕ → Negotiator → Negotiator × List Effect
unfolding negotiate_now
negotiate_if (some ch) n = (record n { queued_negotiation = true }, [])
negotiate_if none n =
    negotiate_now
      (record n { negotiation_done = some n.next_channel; next_channel = suc n.next_channel })

-- `Negotiate`.
unfoldable pub negotiate : Negotiator → Negotiator × List Effect
unfolding negotiate_if
negotiate n = negotiate_if n.negotiation_done n

-- The channel that `Negotiate` returns: none where it queues the negotiation.
unfoldable pub negotiate_channel : Negotiator → Option ℕ
negotiate_channel n = elim n.negotiation_done [ none ↦ some n.next_channel | some _ ↦ none ]

unfoldable pub add_transceiver_from_kind :
    TransceiverRequest → Negotiator → Negotiator × List Effect
unfolding negotiate
add_transceiver_from_kind t n =
    negotiate (record n { queued_transceiver_requests = n.queued_transceiver_requests ++ (t ∷ []) })

-- `Done`: the channel to wait for; none stands for a channel that is closed already.
unfoldable pub done : Negotiator → Option ℕ
done n = n.negotiation_done
