-- ===== src/Negotiator/Examples.antt =====
-- The theorems about the negotiator at concrete inputs.
use peer_calls.Base.{◌≡◌, ◌++◌, refl, true, [], ◌∷◌}
use peer_calls.Negotiator.{Negotiator, new_negotiator, negotiate, stable}
use peer_calls.Negotiator.Queue.{
  transceiver_call, state_change, run, asked_for, transceivers_in_order,
}
use peer_calls.Negotiator.Rounds.{is_open}

transceivers_in_order_example :
    let (n, es) =
      run
        (transceiver_call 7 ∷ transceiver_call 8 ∷ state_change stable ∷ [])
        (new_negotiator true) in
    asked_for es ++ n.queued_transceiver_requests ≡ 7 ∷ 8 ∷ []
transceivers_in_order_example =
    transceivers_in_order (transceiver_call 7 ∷ transceiver_call 8 ∷ state_change stable ∷ []) true

abbrev busy : Negotiator
busy = (negotiate (new_negotiator true)).0

busy-is_open : is_open busy ≡ true
unfolding negotiate new_negotiator
busy-is_open = refl
