-- ===== src/Signaller/Examples.antt =====
-- An initiator that negotiates, with a candidate of its own.
use peer_calls.Base.{◌≡◌, refl, true, false, some, List, [], ◌∷◌}
use peer_calls.Negotiator.{negotiate, new_negotiator}
use peer_calls.Signaller.{
  sdp_offer, sdp_answer, signal_offer, new_signal_type_from_sdp_type, PeerConnection, Signaller,
  Effect, sends, adds_ice_candidate, sets_local_description, on_signal, description,
  send_description, handle_local_offer, call_back, call_back_all, candidate_signal, handle_signal,
  handle_ice_candidate,
}
use peer_calls.Signaller.Order.{in_order}
use peer_calls.Signaller.Runs.{
  Input, ice_candidate, remote_signal, negotiation, receive, receive_all, new_signaller,
  candidates_follow_description,
}

abbrev pc : PeerConnection
pc = record {
  offer = some (sdp_offer, 1);
  answer = some (sdp_answer, 2);
  sets_local = true;
  sets_remote = true;
  adds_candidate = true;
}

abbrev offer_first : List (PeerConnection × Input)
offer_first =
    (pc, remote_signal (candidate_signal (8 ∷ [])))
    ∷ (pc, negotiation)
    ∷ (pc, ice_candidate (some (7 ∷ [])))
    ∷ []

abbrev offer_end : Signaller
offer_end = record {
  initiator = true;
  negotiator = (negotiate (new_negotiator true)).0;
  closing = false;
  closed = false;
  description_sent = true;
}

abbrev offer_effects : List Effect
offer_effects =
    adds_ice_candidate (8 ∷ [])
    ∷ sets_local_description sdp_offer 1
    ∷ sends (description signal_offer 1)
    ∷ sends (candidate_signal (7 ∷ []))
    ∷ []

offer_first-receive_all :
    receive_all offer_first (new_signaller true) ≡ some (offer_end, offer_effects)
unfolding receive_all receive new_signaller new_negotiator negotiate handle_signal call_back_all
    call_back handle_local_offer send_description new_signal_type_from_sdp_type on_signal
    handle_ice_candidate
offer_first-receive_all = refl

candidates_follow_description_example : in_order false offer_effects ≡ true
candidates_follow_description_example =
    candidates_follow_description true offer_first offer_end offer_effects offer_first-receive_all
