-- ===== src/Negotiator/Queue.antt =====
-- server/wrtcnegotiator.go: runs of the negotiator, and the requests for transceivers.
use peer_calls.Base.{
  ℕ, ◌≡◌, ◌∙◌, refl, sym, ap, Bool, true, false, some, List, [], ◌∷◌, ◌++◌, Bool-cases, inl, inr,
  Option-cases, suc, if◌then◌else◌,
}
use mathlib.Core.List.{append_assoc, append-nil}
use peer_calls.Negotiator.{
  Negotiator, TransceiverRequest, SignalingState, closed, stable, other_state, Effect,
  add_transceiver, request_negotiation, create_offer, close_done, new_negotiator, additions,
  negotiate_now, negotiate_if, close_done_channel, close_option, handle_signaling_state_change,
  negotiate, add_transceiver_from_kind,
}

-- What the negotiator may be told, in the order in which its lock admits it.
pub data Call : Type 0 where
  negotiate_call : Call
  transceiver_call : TransceiverRequest → Call
  state_change : SignalingState → Call

unfoldable pub step : Call → Negotiator → Negotiator × List Effect
step negotiate_call n = negotiate n
step (transceiver_call t) n = add_transceiver_from_kind t n
step (state_change s) n = handle_signaling_state_change s n

unfoldable pub run : List Call → Negotiator → Negotiator × List Effect
run [] n = (n, [])
run (c ∷ cs) n = let (n1, done) = step c n in let (n2, more) = run cs n1 in (n2, done ++ more)

-- The transceivers that effects add, and those that calls request.
abbrev pub asked_for : List Effect → List TransceiverRequest
asked_for [] = []
asked_for (add_transceiver t ∷ es) = t ∷ asked_for es
asked_for (_ ∷ es) = asked_for es

abbrev pub requested : List Call → List TransceiverRequest
requested [] = []
requested (transceiver_call t ∷ cs) = t ∷ requested cs
requested (_ ∷ cs) = requested cs

asked_for-append : (es fs : List Effect) → asked_for (es ++ fs) ≡ asked_for es ++ asked_for fs
asked_for-append [] fs = refl
asked_for-append (add_transceiver t ∷ es) fs = ap (λ (r : List ℕ). t ∷ r) (asked_for-append es fs)
asked_for-append (request_negotiation ∷ es) fs = asked_for-append es fs
asked_for-append (create_offer ∷ es) fs = asked_for-append es fs
asked_for-append (close_done c ∷ es) fs = asked_for-append es fs

asked_for-additions : (ts : List TransceiverRequest) → asked_for (additions ts) ≡ ts
asked_for-additions [] = refl
asked_for-additions (t ∷ ts) = ap (λ (r : List ℕ). t ∷ r) (asked_for-additions ts)

asked_for-additions_last :
    (ts : List TransceiverRequest) (e : Effect)
    → asked_for (e ∷ []) ≡ []
    → asked_for (additions ts ++ (e ∷ [])) ≡ ts
asked_for-additions_last ts e h =
    asked_for-append (additions ts) (e ∷ [])
    ∙ ap (λ (r : List ℕ). r ++ asked_for (e ∷ [])) (asked_for-additions ts)
    ∙ ap (λ (r : List ℕ). ts ++ r) h
    ∙ append-nil ts

-- A negotiation adds all that is queued.
negotiate_now-queue :
    (n : Negotiator)
    → (asked_for (negotiate_now n).1 ≡ n.queued_transceiver_requests)
      × ((negotiate_now n).0.queued_transceiver_requests ≡ [])
unfolding negotiate_now
negotiate_now-queue n = (go n.initiator, refl)
  where
    go :
        (b : Bool)
        → asked_for (
            additions n.queued_transceiver_requests
            ++ ((if b then create_offer else request_negotiation) ∷ []))
          ≡ n.queued_transceiver_requests
    go true = asked_for-additions_last n.queued_transceiver_requests create_offer refl
    go false = asked_for-additions_last n.queued_transceiver_requests request_negotiation refl

abbrev own : Call → List TransceiverRequest
own c = requested (c ∷ [])

now-queue :
    (n : Negotiator)
    → asked_for (negotiate_now n).1 ++ (negotiate_now n).0.queued_transceiver_requests
      ≡ n.queued_transceiver_requests
now-queue n =
    let (a, q) = negotiate_now-queue n in rw q (append-nil (asked_for (negotiate_now n).1) ∙ a)

close-queue :
    (n : Negotiator)
    → asked_for (close_done_channel n).1 ++ (close_done_channel n).0.queued_transceiver_requests
      ≡ n.queued_transceiver_requests
unfolding close_done_channel close_option
close-queue n = elim (Option-cases n.negotiation_done) [
  | inl e ↦ rw e refl
  | inr (ch, e) ↦ rw e refl
]

negotiate-queue :
    (n : Negotiator)
    → asked_for (negotiate n).1 ++ (negotiate n).0.queued_transceiver_requests
      ≡ n.queued_transceiver_requests
unfolding negotiate negotiate_if
negotiate-queue n = elim (Option-cases n.negotiation_done) [
  | inl e ↦ rw e (
      now-queue
        (record n { negotiation_done = some n.next_channel; next_channel = suc n.next_channel }))
  | inr (ch, e) ↦ rw e refl
]

state-queue :
    (s : SignalingState) (n : Negotiator)
    → asked_for (handle_signaling_state_change s n).1
        ++ (handle_signaling_state_change s n).0.queued_transceiver_requests
      ≡ n.queued_transceiver_requests
unfolding handle_signaling_state_change
state-queue closed n = close-queue n
state-queue stable n = elim (Bool-cases n.queued_negotiation) [
  | inl e ↦ rw e (now-queue (record n { queued_negotiation = false }))
  | inr e ↦ rw e (close-queue n)
]
state-queue other_state n = refl

own-requested : (c : Call) (cs : List Call) → own c ++ requested cs ≡ requested (c ∷ cs)
own-requested negotiate_call cs = refl
own-requested (transceiver_call t) cs = refl
own-requested (state_change s) cs = refl

-- One call: what is asked for and what is queued afterwards is what was queued and what is requested.
step-queue :
    (c : Call) (n : Negotiator)
    → let (n', es) = step c n in
      asked_for es ++ n'.queued_transceiver_requests ≡ n.queued_transceiver_requests ++ own c
unfolding step
step-queue negotiate_call n = negotiate-queue n ∙ sym (append-nil n.queued_transceiver_requests)
step-queue (transceiver_call t) n =
    unfold add_transceiver_from_kind in
    negotiate-queue
      (record n { queued_transceiver_requests = n.queued_transceiver_requests ++ (t ∷ []) })
step-queue (state_change s) n = state-queue s n ∙ sym (append-nil n.queued_transceiver_requests)

run-queue :
    (cs : List Call) (n : Negotiator)
    → let (n', es) = run cs n in
      asked_for es ++ n'.queued_transceiver_requests ≡ n.queued_transceiver_requests ++ requested cs
unfolding run
run-queue [] n = sym (append-nil n.queued_transceiver_requests)
run-queue (c ∷ cs) n =
    let (n1, done) = step c n in
    let (n2, more) = run cs n1 in
    ap (λ (r : List ℕ). r ++ n2.queued_transceiver_requests) (asked_for-append done more)
    ∙ append_assoc (asked_for done) (asked_for more) n2.queued_transceiver_requests
    ∙ ap (λ (r : List ℕ). asked_for done ++ r) (run-queue cs n1)
    ∙ sym (append_assoc (asked_for done) n1.queued_transceiver_requests (requested cs))
    ∙ ap (λ (r : List ℕ). r ++ requested cs) (step-queue c n)
    ∙ append_assoc n.queued_transceiver_requests (own c) (requested cs)
    ∙ ap (λ (r : List ℕ). n.queued_transceiver_requests ++ r) (own-requested c cs)

-- Whatever calls come, in whatever order: the transceivers that the peer connection is asked to add,
-- and then those still queued, are the requested ones, each once and in the order of the requests.
-- (Whether the peer connection adds one that it is asked for is not stated: its error is logged, and
-- the request is not made again.)
pub transceivers_in_order :
    (cs : List Call) (initiator : Bool)
    → let (n, es) = run cs (new_negotiator initiator) in
      asked_for es ++ n.queued_transceiver_requests ≡ requested cs
transceivers_in_order cs initiator =
    unfold new_negotiator in run-queue cs (new_negotiator initiator)
