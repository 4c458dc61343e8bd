-- ===== src/Negotiator/Rounds.antt =====
-- server/wrtcnegotiator.go: rounds of negotiation, going on and queued.
use peer_calls.Base.{
  ℕ, suc, ◌+◌, ◌≡◌, ◌≢◌, refl, Bool, true, false, none, some, List, [], ◌∷◌, ◌++◌, Bool-cases, inl,
  inr, Option-cases, if◌then◌else◌, arith,
}
use peer_calls.Negotiator.{
  Negotiator, closed, stable, other_state, Effect, add_transceiver, request_negotiation,
  create_offer, close_done, additions, negotiate_now, negotiate_if, close_done_channel,
  close_option, add_queued_transceivers, handle_signaling_state_change, negotiate,
  add_transceiver_from_kind, negotiate_channel,
}
use peer_calls.Negotiator.Queue.{Call, negotiate_call, transceiver_call, state_change, step, run}

-- How many rounds effects start, by an offer or by a request for one.
abbrev pub rounds : List Effect → ℕ
rounds [] = 0
rounds (add_transceiver t ∷ es) = rounds es
rounds (close_done c ∷ es) = rounds es
rounds (create_offer ∷ es) = suc (rounds es)
rounds (request_negotiation ∷ es) = suc (rounds es)

-- Whether a negotiation goes on.
abbrev pub is_open : Negotiator → Bool
is_open n = elim n.negotiation_done [ none ↦ false | some _ ↦ true ]

-- A negotiation is queued only behind another.
abbrev pub IsTidy : Negotiator → Type 0
IsTidy n = n.queued_negotiation ≡ true → is_open n ≡ true

rounds-additions : (ts : List ℕ) (e : Effect) → rounds (additions ts ++ (e ∷ [])) ≡ rounds (e ∷ [])
rounds-additions [] e = refl
rounds-additions (t ∷ ts) e = rounds-additions ts e

-- A round is one offer of the initiator or one request of the other side.
rounds-negotiate_now : (n : Negotiator) → rounds (negotiate_now n).1 ≡ 1
unfolding negotiate_now
rounds-negotiate_now n = elim (Bool-cases n.initiator) [
  | inl e ↦ rw e (rounds-additions n.queued_transceiver_requests create_offer)
  | inr e ↦ rw e (rounds-additions n.queued_transceiver_requests request_negotiation)
]

-- While a negotiation goes on, any number of calls of `Negotiate` start nothing, and leave one
-- queued. The channel that they return is nil, not the one of the negotiation that goes on.
pub negotiate_queues :
    (n : Negotiator)
    → is_open n ≡ true
    → (negotiate n ≡ (record n { queued_negotiation = true }, []))
      × (negotiate (negotiate n).0 ≡ ((negotiate n).0, []))
      × (negotiate_channel n ≡ none)
      × (n.negotiation_done ≢ negotiate_channel n)
unfolding negotiate negotiate_if negotiate_channel
negotiate_queues n h = ground arith

-- Every call but the closing of the connection keeps a queued negotiation behind another.
pub step-IsTidy :
    (c : Call) (n : Negotiator) → c ≢ state_change closed → IsTidy n → IsTidy (step c n).0
unfolding step negotiate negotiate_if add_transceiver_from_kind handle_signaling_state_change
    negotiate_now close_done_channel
step-IsTidy negotiate_call n h t = ground (arith, t)
step-IsTidy (transceiver_call x) n h t = ground (arith, t)
step-IsTidy (state_change closed) n h t = absurd (h refl)
step-IsTidy (state_change stable) n h t = ground (arith, t)
step-IsTidy (state_change other_state) n h t = t

rounds-append : (es fs : List Effect) → rounds (es ++ fs) ≡ rounds es + rounds fs
rounds-append [] fs = omega arith
rounds-append (add_transceiver t ∷ es) fs = rounds-append es fs
rounds-append (close_done c ∷ es) fs = rounds-append es fs
rounds-append (create_offer ∷ es) fs = omega (arith, rounds-append es fs)
rounds-append (request_negotiation ∷ es) fs = omega (arith, rounds-append es fs)

rounds-close : (n : Negotiator) → rounds (close_done_channel n).1 ≡ 0
unfolding close_done_channel close_option
rounds-close n = elim (Option-cases n.negotiation_done) [
  | inl e ↦ rw e refl
  | inr (ch, e) ↦ rw e refl
]

stable-idle :
    (n : Negotiator)
    → n.queued_negotiation ≡ false
    → let (n', es) = handle_signaling_state_change stable n in
      (rounds es ≡ 0) × (n'.negotiation_done ≡ none) × (n'.queued_negotiation ≡ false)
unfolding handle_signaling_state_change
stable-idle n h =
    rw h (rounds-close n, unfold close_done_channel in refl, unfold close_done_channel in refl)

stable-queued :
    (n : Negotiator)
    → let (n', es) = handle_signaling_state_change stable n in
      (rounds es ≡ (if n.queued_negotiation then 1 else 0)) × (n'.queued_negotiation ≡ false)
unfolding handle_signaling_state_change
stable-queued n = elim (Bool-cases n.queued_negotiation) [
  | inl e ↦ rw e (
    rounds-negotiate_now (record n { queued_negotiation = false }),
    unfold negotiate_now add_queued_transceivers in refl,
  )
  | inr e ↦ rw e (rounds-close n, unfold close_done_channel in refl)
]

-- The connection becomes stable twice: the queued negotiation is started as one round, if there is
-- one, and then no negotiation is left, neither going on nor queued.
pub stable_twice_settles :
    (n : Negotiator)
    → let (n', es) = run (state_change stable ∷ state_change stable ∷ []) n in
      (rounds es ≡ (if n.queued_negotiation then 1 else 0))
      × (n'.negotiation_done ≡ none)
      × (n'.queued_negotiation ≡ false)
unfolding run step
stable_twice_settles n =
    let (n1, es) = handle_signaling_state_change stable n in
    let (r1, q1) = stable-queued n in
    let (r2, d2, q2) = stable-idle n1 q1 in
    let (n2, fs) = handle_signaling_state_change stable n1 in
    (omega (arith, rounds-append es (fs ++ []), rounds-append fs [], r1, r2), d2, q2)
