-- ===== src/Signaller/Order.antt =====
-- server/wrtcsignaller.go: what is sent before the candidates.
use peer_calls.Base.{
  ℕ, ◌≡◌, refl, arith, Bool, true, false, not, ◌||◌, ◌&&◌, Option, none, some, List, [], ◌∷◌, ◌++◌,
  if◌then◌else◌,
}
use peer_calls.Negotiator
use peer_calls.Negotiator.{
  Negotiator, SignalingState, add_transceiver, request_negotiation, create_offer, close_done,
  new_negotiator, negotiate, add_transceiver_from_kind, handle_signaling_state_change,
}
use peer_calls.Signaller.{
  SdpType, sdp_offer, sdp_pranswer, sdp_answer, sdp_rollback, sdp_other, SignalType,
  new_signal_type_from_sdp_type, sdp_type, Signal, PeerConnection, Signaller, SignalError,
  remote_failed, local_failed, after_call, Effect, sends, sends_or_drops, begins_close,
  adds_ice_candidate, sets_remote_description, sets_local_description, adds_transceiver,
  closes_done, closes_connection, on_signal, send_description, handle_local_offer,
  handle_local_request_negotiation, call_back, call_back_all, with_negotiator, no_error,
  send_answer, answer_at, after_effect, handle_remote_offer, handle_remote_sdp, sdp_at, request_at,
  candidate_at,
}

-- A type of signal comes from a type of description exactly as this comes from it.
pub sdp_type_iff :
    (d : SdpType) (t : SignalType)
    → ((new_signal_type_from_sdp_type d ≡ some t) → (sdp_type t ≡ some d))
      × ((sdp_type t ≡ some d) → (new_signal_type_from_sdp_type d ≡ some t))
unfolding new_signal_type_from_sdp_type sdp_type
sdp_type_iff d t = ground arith

abbrev pub is_candidate : Signal → Bool
is_candidate p = elim p.candidate [ none ↦ false | some c ↦ true ]

abbrev pub is_description : Signal → Bool
unfolding sdp_type
is_description p = elim (sdp_type p.signal_type) [ none ↦ false | some d ↦ true ]

-- Up to the beginning of a close, every candidate follows a description, or one was seen before.
abbrev pub in_order : Bool → List Effect → Bool
in_order seen [] = true
in_order seen (sends p ∷ es) =
    let rest = in_order (seen || is_description p) es in
    if seen || not (is_candidate p) then rest else false
in_order seen (sends_or_drops p ∷ es) =
    let rest = in_order seen es in if seen || not (is_candidate p) then rest else false
in_order seen (begins_close ∷ es) = in_order true es
in_order seen (_ ∷ es) = in_order seen es

-- A description was sent, or a close began.
abbrev pub seen_after : Bool → List Effect → Bool
seen_after seen [] = seen
seen_after seen (sends p ∷ es) = seen_after (seen || is_description p) es
seen_after seen (begins_close ∷ es) = seen_after true es
seen_after seen (_ ∷ es) = seen_after seen es

-- Candidates wait until a description was sent or the signaller begins to close.
abbrev pub IsReady : Bool → Signaller → Type 0
IsReady seen s = ((not (s.closing || s.closed) && not s.description_sent) || seen) ≡ true

abbrev pub Good : Bool → Signaller × List Effect → Type 0
Good seen (s, es) = (in_order seen es ≡ true) × IsReady (seen_after seen es) s

both_true : (b r : Bool) → (if b then r else false) ≡ true → (b ≡ true) × (r ≡ true)
both_true b r h = ground arith

pub in_order-append :
    (seen : Bool) (es fs : List Effect)
    → in_order seen es ≡ true
    → in_order (seen_after seen es) fs ≡ true
    → in_order seen (es ++ fs) ≡ true
in_order-append seen [] fs h k = k
in_order-append seen (sends p ∷ es) fs h k =
    let (ok, rest) =
      both_true (seen || not (is_candidate p)) (in_order (seen || is_description p) es) h in
    rw ok (in_order-append (seen || is_description p) es fs rest k)
in_order-append seen (sends_or_drops p ∷ es) fs h k =
    let (ok, rest) = both_true (seen || not (is_candidate p)) (in_order seen es) h in
    rw ok (in_order-append seen es fs rest k)
in_order-append seen (begins_close ∷ es) fs h k = in_order-append true es fs h k
in_order-append seen (adds_ice_candidate c ∷ es) fs h k = in_order-append seen es fs h k
in_order-append seen (sets_remote_description t n ∷ es) fs h k = in_order-append seen es fs h k
in_order-append seen (sets_local_description t n ∷ es) fs h k = in_order-append seen es fs h k
in_order-append seen (adds_transceiver t ∷ es) fs h k = in_order-append seen es fs h k
in_order-append seen (closes_done ch ∷ es) fs h k = in_order-append seen es fs h k
in_order-append seen (closes_connection ∷ es) fs h k = in_order-append seen es fs h k

pub seen_after-append :
    (seen : Bool) (es fs : List Effect)
    → seen_after seen (es ++ fs) ≡ seen_after (seen_after seen es) fs
seen_after-append seen [] fs = refl
seen_after-append seen (sends p ∷ es) fs = seen_after-append (seen || is_description p) es fs
seen_after-append seen (sends_or_drops p ∷ es) fs = seen_after-append seen es fs
seen_after-append seen (begins_close ∷ es) fs = seen_after-append true es fs
seen_after-append seen (adds_ice_candidate c ∷ es) fs = seen_after-append seen es fs
seen_after-append seen (sets_remote_description t n ∷ es) fs = seen_after-append seen es fs
seen_after-append seen (sets_local_description t n ∷ es) fs = seen_after-append seen es fs
seen_after-append seen (adds_transceiver t ∷ es) fs = seen_after-append seen es fs
seen_after-append seen (closes_done ch ∷ es) fs = seen_after-append seen es fs
seen_after-append seen (closes_connection ∷ es) fs = seen_after-append seen es fs

if_cases : {A : Type 0} (P : A → Type 0) (b : Bool) (x y : A) → P x → P y → P (if b then x else y)
if_cases P true x y p q = p
if_cases P false x y p q = q

send_description-Good :
    (pc : PeerConnection) (d : SdpType) (sdp : ℕ) (seen : Bool) (s : Signaller)
    → IsReady seen s
    → Good seen (send_description (new_signal_type_from_sdp_type d) sdp s)
unfolding send_description new_signal_type_from_sdp_type on_signal sdp_type
send_description-Good pc d sdp seen s h = ground arith

handle_local_offer-Good :
    (pc : PeerConnection) (o : Option (SdpType × ℕ)) (seen : Bool) (s : Signaller)
    → IsReady seen s
    → Good seen (handle_local_offer pc o s)
unfolding handle_local_offer
handle_local_offer-Good pc none seen s h = (refl, h)
handle_local_offer-Good pc (some (d, sdp)) seen s h =
    if_cases (λ r. Good seen (after_call (sets_local_description d sdp) r)) pc.sets_local
      (send_description (new_signal_type_from_sdp_type d) sdp s) (s, [])
      (send_description-Good pc d sdp seen s h) (refl, h)

call_back-Good :
    (pc : PeerConnection) (e : Negotiator.Effect) (seen : Bool) (s : Signaller)
    → IsReady seen s
    → Good seen (call_back pc e s)
unfolding call_back handle_local_request_negotiation on_signal sdp_type
call_back-Good pc (add_transceiver t) seen s h = (refl, h)
call_back-Good pc request_negotiation seen s h = ground arith
call_back-Good pc create_offer seen s h = handle_local_offer-Good pc pc.offer seen s h
call_back-Good pc (close_done ch) seen s h = (refl, h)

call_back_all-Good :
    (pc : PeerConnection) (es : List Negotiator.Effect) (seen : Bool) (s : Signaller)
    → IsReady seen s
    → Good seen (call_back_all pc es s)
unfolding call_back_all
call_back_all-Good pc [] seen s h = (refl, h)
call_back_all-Good pc (e ∷ es) seen s h =
    let (s1, fs) = call_back pc e s in
    let (s2, gs) = call_back_all pc es s1 in
    let (first, ready) = call_back-Good pc e seen s h in
    let (then_ok, ready2) = call_back_all-Good pc es (seen_after seen fs) s1 ready in
    (in_order-append seen fs gs first then_ok, rw (seen_after-append seen fs gs) ready2)

pub with_negotiator-Good :
    (pc : PeerConnection) (call : Negotiator × List Negotiator.Effect) (seen : Bool) (s : Signaller)
    → IsReady seen s
    → Good seen (with_negotiator pc call s)
with_negotiator-Good pc (n, es) seen s h =
    call_back_all-Good pc es seen (record s { negotiator = n }) h

-- The first two parts of what a handler of signals gives.
abbrev pub without_error : Signaller × List Effect × Option SignalError → Signaller × List Effect
without_error (s, es, error) = (s, es)

send_answer-Good :
    (d : SdpType) (sdp : ℕ) (seen : Bool) (s : Signaller)
    → IsReady seen s
    → Good seen (without_error (send_answer (new_signal_type_from_sdp_type d) sdp s))
unfolding send_answer send_description new_signal_type_from_sdp_type on_signal sdp_type
send_answer-Good d sdp seen s h = ground arith

answer_at-Good :
    (pc : PeerConnection) (o : Option (SdpType × ℕ)) (seen : Bool) (s : Signaller)
    → IsReady seen s
    → Good seen (without_error (answer_at pc o s))
unfolding answer_at
answer_at-Good pc none seen s h = (refl, h)
answer_at-Good pc (some (d, sdp)) seen s h =
    if_cases (λ r. Good seen (without_error (after_effect (sets_local_description d sdp) r)))
      pc.sets_local (send_answer (new_signal_type_from_sdp_type d) sdp s) (s, [], some local_failed)
      (send_answer-Good d sdp seen s h) (refl, h)

handle_remote_sdp-Good :
    (pc : PeerConnection) (d : SdpType) (sdp : ℕ) (seen : Bool) (s : Signaller)
    → IsReady seen s
    → Good seen (without_error (handle_remote_sdp pc d sdp s))
unfolding handle_remote_sdp handle_remote_offer
handle_remote_sdp-Good pc sdp_offer sdp seen s h =
    if_cases
      (λ r. Good seen (without_error (after_effect (sets_remote_description sdp_offer sdp) r)))
      pc.sets_remote (answer_at pc pc.answer s) (s, [], some remote_failed)
      (answer_at-Good pc pc.answer seen s h) (refl, h)
handle_remote_sdp-Good pc sdp_answer sdp seen s h = (refl, h)
handle_remote_sdp-Good pc sdp_pranswer sdp seen s h = (refl, h)
handle_remote_sdp-Good pc sdp_rollback sdp seen s h = (refl, h)
handle_remote_sdp-Good pc sdp_other sdp seen s h = (refl, h)

sdp_at-Good :
    (pc : PeerConnection) (o : Option SdpType) (sdp : ℕ) (seen : Bool) (s : Signaller)
    → IsReady seen s
    → Good seen (without_error (sdp_at pc o sdp s))
sdp_at-Good pc none sdp seen s h = (refl, h)
sdp_at-Good pc (some d) sdp seen s h = handle_remote_sdp-Good pc d sdp seen s h

request_at-Good :
    (pc : PeerConnection) (o : Option ℕ) (signal : Signal) (seen : Bool) (s : Signaller)
    → IsReady seen s
    → Good seen (without_error (request_at pc o signal s))
request_at-Good pc none signal seen s h =
    sdp_at-Good pc (sdp_type signal.signal_type) signal.sdp seen s h
request_at-Good pc (some t) signal seen s h =
    with_negotiator-Good pc (add_transceiver_from_kind t s.negotiator) seen s h

pub candidate_at-Good :
    (pc : PeerConnection) (o : Option (List ℕ)) (signal : Signal) (seen : Bool) (s : Signaller)
    → IsReady seen s
    → Good seen (without_error (candidate_at pc o signal s))
candidate_at-Good pc (some []) signal seen s h = (refl, h)
candidate_at-Good pc (some (c ∷ cs)) signal seen s h = (refl, h)
candidate_at-Good pc none signal seen s h =
    if_cases (λ r. Good seen (without_error r)) signal.renegotiate
      (no_error (with_negotiator pc (negotiate s.negotiator) s))
      (request_at pc signal.transceiver_request signal s)
      (with_negotiator-Good pc (negotiate s.negotiator) seen s h)
      (request_at-Good pc signal.transceiver_request signal seen s h)
