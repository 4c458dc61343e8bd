-- ===== src/Signaller/Runs.antt =====
-- server/wrtcsignaller.go: runs of a signaller.
use mathlib.Core.Path.{subst}
use peer_calls.Base.{
  ℕ, ◌≡◌, refl, sym, arith, Bool, true, false, Option, none, some, List, [], ◌∷◌, ◌++◌,
  if◌then◌else◌, Bool-cases, inl, inr,
}
use peer_calls.Negotiator.{SignalingState, new_negotiator, negotiate, handle_signaling_state_change}
use peer_calls.Signaller.{
  sdp_type, Signal, PeerConnection, Signaller, Effect, on_signal, with_negotiator, begin_close,
  end_close, handle_signal, handle_ice_candidate, send_transceiver_request,
}
use peer_calls.Signaller.Order.{
  in_order, seen_after, IsReady, Good, in_order-append, seen_after-append, with_negotiator-Good,
  candidate_at-Good, without_error,
}

-- What a signaller is told: a candidate of its own, whose handler waits for the description; a
-- signal of the other side; a wish to negotiate; a change of the signaling state; a request for a
-- transceiver; and the two steps of a close, also by the state of the connection.
pub data Input : Type 0 where
  ice_candidate : Option (List ℕ) → Input
  remote_signal : Signal → Input
  negotiation : Input
  signaling_state : SignalingState → Input
  transceiver_request : ℕ → Input
  close_start close_end : Input

-- None: the handler of a candidate waits still, or there is no close to end.
unfoldable pub receive : PeerConnection → Input → Signaller → Option (Signaller × List Effect)
receive pc (ice_candidate c) s =
    if s.description_sent then some (s, handle_ice_candidate c s) else none
receive pc (remote_signal signal) s = some (without_error (handle_signal pc signal s))
receive pc negotiation s = some (with_negotiator pc (negotiate s.negotiator) s)
receive pc (signaling_state state) s =
    some (with_negotiator pc (handle_signaling_state_change state s.negotiator) s)
receive pc (transceiver_request t) s = some (s, send_transceiver_request t s)
receive pc close_start s = some (begin_close s)
receive pc close_end s = end_close s

abbrev pub GoodOption : Bool → Option (Signaller × List Effect) → Type 0
GoodOption seen none = Unit
GoodOption seen (some r) = Good seen r

ice_candidate-Good :
    (c : Option (List ℕ)) (seen : Bool) (s : Signaller)
    → IsReady seen s
    → s.description_sent ≡ true
    → Good seen (s, handle_ice_candidate c s)
unfolding handle_ice_candidate on_signal sdp_type
ice_candidate-Good c seen s h sent = ground arith

transceiver_request-Good :
    (t : ℕ) (seen : Bool) (s : Signaller)
    → IsReady seen s
    → Good seen (s, send_transceiver_request t s)
unfolding send_transceiver_request on_signal sdp_type
transceiver_request-Good t seen s h = ground arith

begin_close-Good : (seen : Bool) (s : Signaller) → IsReady seen s → Good seen (begin_close s)
unfolding begin_close
begin_close-Good seen s h = ground arith

end_close-Good : (seen : Bool) (s : Signaller) → IsReady seen s → GoodOption seen (end_close s)
unfolding end_close
end_close-Good seen s h = ground arith

receive-Good :
    (pc : PeerConnection) (i : Input) (seen : Bool) (s : Signaller)
    → IsReady seen s
    → GoodOption seen (receive pc i s)
unfolding receive handle_signal
receive-Good pc (ice_candidate c) seen s h = elim (Bool-cases s.description_sent) [
  | inl ok ↦
      subst (λ b. GoodOption seen (if b then some (s, handle_ice_candidate c s) else none)) (sym ok)
        (ice_candidate-Good c seen s h ok)
  | inr waiting ↦
      subst (λ b. GoodOption seen (if b then some (s, handle_ice_candidate c s) else none))
        (sym waiting) tt
]
receive-Good pc (remote_signal signal) seen s h =
    candidate_at-Good pc signal.candidate signal seen s h
receive-Good pc negotiation seen s h = with_negotiator-Good pc (negotiate s.negotiator) seen s h
receive-Good pc (signaling_state state) seen s h =
    with_negotiator-Good pc (handle_signaling_state_change state s.negotiator) seen s h
receive-Good pc (transceiver_request t) seen s h = transceiver_request-Good t seen s h
receive-Good pc close_start seen s h = begin_close-Good seen s h
receive-Good pc close_end seen s h = end_close-Good seen s h

abbrev pub and_then :
    List Effect → Option (Signaller × List Effect) → Option (Signaller × List Effect)
and_then es none = none
and_then es (some (s, fs)) = some (s, es ++ fs)

-- Inputs with the answers of the peer connection, if each of them is received in its turn.
unfoldable pub receive_all :
    List (PeerConnection × Input) → Signaller → Option (Signaller × List Effect)
receive_all [] s = some (s, [])
receive_all ((pc, i) ∷ is) s = elim (receive pc i s) [
  | none ↦ none
  | some (s', es) ↦ and_then es (receive_all is s')
]

unfoldable pub new_signaller : Bool → Signaller
new_signaller initiator = record {
  initiator = initiator;
  negotiator = new_negotiator initiator;
  closing = false;
  closed = false;
  description_sent = false;
}

and_then-Good :
    (es : List Effect) (rest : Option (Signaller × List Effect)) (seen : Bool)
    → in_order seen es ≡ true
    → GoodOption (seen_after seen es) rest
    → GoodOption seen (and_then es rest)
and_then-Good es none seen h g = tt
and_then-Good es (some (s, fs)) seen h (k, ready) =
    (in_order-append seen es fs h k, rw (seen_after-append seen es fs) ready)

through :
    (is : List (PeerConnection × Input)) (first : Option (Signaller × List Effect)) (seen : Bool)
    → GoodOption seen first
    → ((seen' : Bool) (s' : Signaller) → IsReady seen' s' → GoodOption seen' (receive_all is s'))
    → GoodOption seen (elim first [ none ↦ none | some (s', es) ↦ and_then es (receive_all is s') ])
through is none seen g rest = tt
through is (some (s', es)) seen (h, ready) rest =
    and_then-Good es (receive_all is s') seen h (rest (seen_after seen es) s' ready)

receive_all-Good :
    (is : List (PeerConnection × Input)) (seen : Bool) (s : Signaller)
    → IsReady seen s
    → GoodOption seen (receive_all is s)
unfolding receive_all
receive_all-Good [] seen s h = (refl, h)
receive_all-Good ((pc, i) ∷ is) seen s h =
    through is (receive pc i s) seen (receive-Good pc i seen s h)
      (λ seen' s' h'. receive_all-Good is seen' s' h')

-- Whatever a signaller is told, in whatever order, and whatever the peer connection answers: no
-- candidate is sent before a description was sent, until the signaller begins to close. (From then on
-- a description may be dropped, and a candidate after it sent.)
pub candidates_follow_description :
    (initiator : Bool) (is : List (PeerConnection × Input)) (s : Signaller) (es : List Effect)
    → receive_all is (new_signaller initiator) ≡ some (s, es)
    → in_order false es ≡ true
unfolding new_signaller
candidates_follow_description initiator is s es e =
    (subst (GoodOption false) e (receive_all-Good is false (new_signaller initiator) refl)).0
