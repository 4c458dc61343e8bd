-- ===== src/Signaller.antt =====
-- server/wrtcsignaller.go: what a `Signaller` does with what it is told, and the signal types of
-- server/message/signal.go. The peer connection's answers are an argument, its calls are effects. A
-- sent signal is an effect at the time at which `onSignal` gets the lock, which is held until the
-- signal is read or, once the signaller begins to close, dropped: `sends` where it does not close
-- yet, so that signals are read in this order; `sends_or_drops` where it does.
pub mod Order
pub mod Runs
mod Examples
use peer_calls.Base.{
  ℕ, Bool, true, false, not, ◌&&◌, Option, none, some, List, [], ◌∷◌, ◌++◌, if◌then◌else◌,
}
use peer_calls.Negotiator
use peer_calls.Negotiator.{
  Negotiator, add_transceiver, request_negotiation, create_offer, close_done, new_negotiator,
  negotiate, add_transceiver_from_kind,
}

-- `webrtc.SDPType`
pub data SdpType : Type 0 where
  sdp_offer sdp_pranswer sdp_answer sdp_rollback sdp_other : SdpType

pub data SignalType : Type 0 where
  signal_candidate signal_transceiver_request signal_renegotiate : SignalType
  signal_offer signal_pranswer signal_answer signal_rollback signal_other : SignalType

unfoldable pub new_signal_type_from_sdp_type : SdpType → Option SignalType
new_signal_type_from_sdp_type sdp_offer = some signal_offer
new_signal_type_from_sdp_type sdp_pranswer = some signal_pranswer
new_signal_type_from_sdp_type sdp_answer = some signal_answer
new_signal_type_from_sdp_type sdp_rollback = some signal_rollback
new_signal_type_from_sdp_type sdp_other = none

unfoldable pub sdp_type : SignalType → Option SdpType
sdp_type signal_offer = some sdp_offer
sdp_type signal_pranswer = some sdp_pranswer
sdp_type signal_answer = some sdp_answer
sdp_type signal_rollback = some sdp_rollback
sdp_type _ = none

-- The text of a candidate, a description and a request by number.
pub record Signal : Type 0 where
  pub candidate : Option (List ℕ)
  pub renegotiate : Bool
  pub signal_type : SignalType
  pub sdp : ℕ
  pub transceiver_request : Option ℕ

-- A description, or none for an error; and whether the calls succeed.
pub record PeerConnection : Type 0 where
  pub offer : Option (SdpType × ℕ)
  pub answer : Option (SdpType × ℕ)
  pub sets_local : Bool
  pub sets_remote : Bool
  pub adds_candidate : Bool

pub record Signaller : Type 0 where
  pub initiator : Bool
  pub negotiator : Negotiator
  pub closing : Bool
  pub closed : Bool
  pub description_sent : Bool

pub data SignalError : Type 0 where
  candidate_failed remote_failed answer_failed local_failed : SignalError
  unknown_answer unexpected_sdp unexpected_signal : SignalError

pub data Effect : Type 0 where
  sends : Signal → Effect
  sends_or_drops : Signal → Effect
  adds_ice_candidate : List ℕ → Effect
  sets_remote_description : SdpType → ℕ → Effect
  sets_local_description : SdpType → ℕ → Effect
  adds_transceiver : ℕ → Effect
  closes_done : ℕ → Effect
  begins_close : Effect
  closes_connection : Effect

-- Once the close channel is closed, the `select` may take either case.
unfoldable pub on_signal : Signal → Signaller → List Effect
on_signal payload s =
    if s.closed then [] else if s.closing then sends_or_drops payload ∷ [] else sends payload ∷ []

abbrev pub close_description_sent : Signaller → Signaller
close_description_sent s = record s { description_sent = true }

abbrev pub description : SignalType → ℕ → Signal
description typ sdp = record {
  candidate = none;
  renegotiate = false;
  signal_type = typ;
  sdp = sdp;
  transceiver_request = none;
}

-- A description of a known type is sent, and then candidates may be.
unfoldable pub send_description : Option SignalType → ℕ → Signaller → Signaller × List Effect
send_description none sdp s = (s, [])
send_description (some typ) sdp s = (close_description_sent s, on_signal (description typ sdp) s)

abbrev pub after_call : Effect → Signaller × List Effect → Signaller × List Effect
after_call e (s, es) = (s, e ∷ es)

unfoldable pub handle_local_offer :
    PeerConnection → Option (SdpType × ℕ) → Signaller → Signaller × List Effect
handle_local_offer pc none s = (s, [])
handle_local_offer pc (some (typ, sdp)) s =
    after_call (sets_local_description typ sdp) (
      if pc.sets_local then send_description (new_signal_type_from_sdp_type typ) sdp s else (s, []))

abbrev pub renegotiation : Signal
renegotiation = record {
  candidate = none;
  renegotiate = true;
  signal_type = signal_renegotiate;
  sdp = 0;
  transceiver_request = none;
}

unfoldable pub handle_local_request_negotiation : Signaller → List Effect
handle_local_request_negotiation s = on_signal renegotiation s

-- What the negotiator does, with its callbacks.
unfoldable pub call_back : PeerConnection → Negotiator.Effect → Signaller → Signaller × List Effect
call_back pc (add_transceiver t) s = (s, adds_transceiver t ∷ [])
call_back pc request_negotiation s = (s, handle_local_request_negotiation s)
call_back pc create_offer s = handle_local_offer pc pc.offer s
call_back pc (close_done ch) s = (s, closes_done ch ∷ [])

unfoldable pub call_back_all :
    PeerConnection → List Negotiator.Effect → Signaller → Signaller × List Effect
call_back_all pc [] s = (s, [])
call_back_all pc (e ∷ es) s =
    let (s1, fs) = call_back pc e s in let (s2, gs) = call_back_all pc es s1 in (s2, fs ++ gs)

-- A call of the negotiator.
abbrev pub with_negotiator :
    PeerConnection → Negotiator × List Negotiator.Effect → Signaller → Signaller × List Effect
with_negotiator pc (n, es) s = call_back_all pc es (record s { negotiator = n })

-- `Close`, until it waits for the lock: it closes the close channel. A later call waits for the end
-- of the first one.
unfoldable pub begin_close : Signaller → Signaller × List Effect
begin_close s =
    if s.closing
    then (if s.closed then close_description_sent s else s, [])
    else (record s { closing = true }, begins_close ∷ [])

-- `Close`, once it has the lock; none where it is not called, or over.
unfoldable pub end_close : Signaller → Option (Signaller × List Effect)
end_close s =
    if s.closing && not s.closed
    then some (record s { closed = true; description_sent = true }, closes_connection ∷ [])
    else none

-- The error, if any, is last.
abbrev pub no_error : Signaller × List Effect → Signaller × List Effect × Option SignalError
no_error (s, es) = (s, es, none)

unfoldable pub send_answer :
    Option SignalType → ℕ → Signaller → Signaller × List Effect × Option SignalError
send_answer none sdp s = (s, [], some unknown_answer)
send_answer (some typ) sdp s = no_error (send_description (some typ) sdp s)

abbrev pub after_effect :
    Effect
    → Signaller × List Effect × Option SignalError
    → Signaller × List Effect × Option SignalError
after_effect e (s, es, error) = (s, e ∷ es, error)

-- By the answer that the peer connection creates.
unfoldable pub answer_at :
    PeerConnection → Option (SdpType × ℕ) → Signaller → Signaller × List Effect × Option SignalError
answer_at pc none s = (s, [], some answer_failed)
answer_at pc (some (typ, sdp)) s = after_effect (sets_local_description typ sdp) (
    if pc.sets_local
    then send_answer (new_signal_type_from_sdp_type typ) sdp s
    else (s, [], some local_failed))

unfoldable pub handle_remote_offer :
    PeerConnection → ℕ → Signaller → Signaller × List Effect × Option SignalError
handle_remote_offer pc sdp s =
    after_effect (sets_remote_description sdp_offer sdp)
      (if pc.sets_remote then answer_at pc pc.answer s else (s, [], some remote_failed))

unfoldable pub handle_remote_sdp :
    PeerConnection → SdpType → ℕ → Signaller → Signaller × List Effect × Option SignalError
handle_remote_sdp pc sdp_offer sdp s = handle_remote_offer pc sdp s
handle_remote_sdp pc sdp_answer sdp s = (
  s,
  sets_remote_description sdp_answer sdp ∷ [],
  (if pc.sets_remote then none else some remote_failed),
)
handle_remote_sdp pc _ sdp s = (s, [], some unexpected_sdp)

abbrev pub sdp_at :
    PeerConnection → Option SdpType → ℕ → Signaller → Signaller × List Effect × Option SignalError
sdp_at pc none sdp s = (s, [], some unexpected_signal)
sdp_at pc (some typ) sdp s = handle_remote_sdp pc typ sdp s

abbrev pub request_at :
    PeerConnection → Option ℕ → Signal → Signaller → Signaller × List Effect × Option SignalError
request_at pc (some t) signal s =
    no_error (with_negotiator pc (add_transceiver_from_kind t s.negotiator) s)
request_at pc none signal s = sdp_at pc (sdp_type signal.signal_type) signal.sdp s

abbrev pub candidate_at :
    PeerConnection
    → Option (List ℕ)
    → Signal
    → Signaller
    → Signaller × List Effect × Option SignalError
candidate_at pc (some []) signal s = (s, [], none)
candidate_at pc (some (c ∷ cs)) signal s = (
  s,
  adds_ice_candidate (c ∷ cs) ∷ [],
  (if pc.adds_candidate then none else some candidate_failed),
)
candidate_at pc none signal s =
    if signal.renegotiate
    then no_error (with_negotiator pc (negotiate s.negotiator) s)
    else request_at pc signal.transceiver_request signal s

-- `Signal`: the cases of its `switch`, in their order.
unfoldable pub handle_signal :
    PeerConnection → Signal → Signaller → Signaller × List Effect × Option SignalError
handle_signal pc signal s = candidate_at pc signal.candidate signal s

abbrev pub candidate_signal : List ℕ → Signal
candidate_signal c = record {
  candidate = some c;
  renegotiate = false;
  signal_type = signal_candidate;
  sdp = 0;
  transceiver_request = none;
}

-- `handleICECandidate`, when its wait for the description is over.
unfoldable pub handle_ice_candidate : Option (List ℕ) → Signaller → List Effect
handle_ice_candidate none s = []
handle_ice_candidate (some c) s = on_signal (candidate_signal c) s

abbrev pub transceiver_signal : ℕ → Signal
transceiver_signal t = record {
  candidate = none;
  renegotiate = false;
  signal_type = signal_transceiver_request;
  sdp = 0;
  transceiver_request = some t;
}

unfoldable pub send_transceiver_request : ℕ → Signaller → List Effect
send_transceiver_request t s = if s.initiator then [] else on_signal (transceiver_signal t) s
