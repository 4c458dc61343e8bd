-- ===== src/Control/Examples.antt =====
-- The theorems about the control events at concrete inputs, and short runs of two nodes.
use peer_calls.Base.{◌++◌, true, ℕ, ◌≡◌, ◌⊎◌, refl, some, List, [], ◌∷◌, arith, false}
use native.Mathlib.Decide.{ℕ_discrete}
use peer_calls.Base.Dict.{get}
use peer_calls.Control.{
  closed, created, added, write_closed, Tracker, RemoteEvent, no_event, create_ack, close,
  want_create,
}
use peer_calls.Control.Events.{Answer, Request, handle_remote_event_answers}
use peer_calls.Control.Factory.{Slot, remote_slot, local_slot}
use peer_calls.Control.Slots.{IsSound, AllSound}
use peer_calls.Control.Link.{
  Action, near_wish, far_wish, near_receive, far_receive, Pair, act, act_all, fresh, state_of,
  IsHealthy, calm, IsCalm,
}
use peer_calls.Control.Lead.{one_leader_safe, one_leader_settles}
use peer_calls.Control.Loop.{
  Loop, Input, local_event, control_event, ping_tick, rounds, rounds-AllSound, silent_peer_ends,
}
use peer_calls.Control.Crossing.{crossed_creates}

abbrev tracker_at : RemoteEvent → Tracker
tracker_at p = record { state = created; pending_local_event = p }

abbrev creating : Slot
creating = record { transport = some 7; tracker = tracker_at no_event }

abbrev closing : Slot
closing = record {
  transport = some 7;
  tracker = record { state = write_closed; pending_local_event = no_event };
}

handle_remote_event_answers_example :
    Answer create_ack (tracker_at close) × Request want_create (tracker_at close)
handle_remote_event_answers_example =
    handle_remote_event_answers create_ack want_create (tracker_at close)

creating-IsSound : IsSound creating
creating-IsSound = ground arith

no_slots : AllSound ℕ_discrete []
unfolding get
no_slots q = tt

abbrev start : Pair
start = record { near = fresh; far = fresh }

abbrev opening : List Action
opening = near_wish (calm 1) want_create ∷ far_receive (calm 2) ∷ near_receive (calm 3) ∷ []

opens :
    (state_of (act_all opening start).near ≡ added) × (state_of (act_all opening start).far ≡ added)
unfolding act_all act remote_slot local_slot
opens = (refl, refl)

calm-IsCalm : (x : ℕ) → IsCalm (calm x)
calm-IsCalm x = ((λ e. cc e), refl, refl)

one_leader_safe_example : IsHealthy (act_all opening start)
one_leader_safe_example =
    one_leader_safe opening (tt, (tt, (tt, tt)))
      (calm-IsCalm 1, (calm-IsCalm 2, (calm-IsCalm 3, tt)))

start-IsHealthy : IsHealthy start
start-IsHealthy = ground arith

one_leader_settles_example :
    let q = act_all (far_receive (calm 2) ∷ near_receive (calm 3) ∷ []) start in
    (q.near.inbox ≡ [])
    × (q.far.inbox ≡ [])
    × (((state_of q.near ≡ closed) × (state_of q.far ≡ closed))
        ⊎ ((state_of q.near ≡ added) × (state_of q.far ≡ added)))
one_leader_settles_example =
    one_leader_settles (calm 2) (calm 3) start (calm-IsCalm 2) (calm-IsCalm 3) start-IsHealthy

crossed_creates_example :
    let q = act_all (near_wish (calm 1) want_create ∷ far_wish (calm 2) want_create ∷ []) start in
    (state_of q.near ≡ created)
    × (state_of q.far ≡ created)
    × ((act (near_receive (calm 3)) q).near.alive ≡ false)
    × ((act (far_receive (calm 3)) q).far.alive ≡ false)
crossed_creates_example = crossed_creates 1 2 3 start start-IsHealthy refl refl refl refl

abbrev loop_start : Loop ℕ
loop_start = record { transports = []; last_recv_ping_time = 100 }

abbrev received : List (Input ℕ)
received =
    local_event (calm 1) 5 want_create
    ∷ control_event 120 (calm 2) false (some (5, create_ack))
    ∷ []

rounds-AllSound_example :
    AllSound ℕ_discrete (rounds ℕ_discrete 30 received loop_start).0.transports
rounds-AllSound_example =
    rounds-AllSound ℕ_discrete 30 received loop_start ((λ h. cc), ((λ h. cc), tt)) no_slots

silent_peer_ends_example :
    (rounds ℕ_discrete 30 (received ++ (ping_tick 131 true ∷ [])) loop_start).1 ≡ false
silent_peer_ends_example =
    silent_peer_ends ℕ_discrete 30 received 131 true [] loop_start (omega arith) (refl, (refl, tt))
      (omega arith)
