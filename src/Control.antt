-- ===== src/Control.antt =====
-- server/udptransport2/control_state_tracker.go: the state machine that both nodes run for every
-- stream, with its events. A method that mutates the tracker returns the new one.
pub mod Factory
pub mod Events
pub mod Slots
pub mod Link
pub mod Lead
pub mod Crossing
pub mod Loop
mod Examples
use peer_calls.Base.{Bool, true, false, not}

-- `controlState`, which starts as `closed`.
pub data ControlState : Type 0 where
  closed created added write_closed : ControlState

-- `remoteControlEventType`; `no_event` is `remoteControlEventTypeNone`.
pub data RemoteEvent : Type 0 where
  no_event create create_ack close close_ack : RemoteEvent

-- `localControlEventType`; `no_local` is `localControlEventTypeNone`.
pub data LocalEvent : Type 0 where
  no_local want_create want_close : LocalEvent

pub record Tracker : Type 0 where
  pub state : ControlState
  pub pending_local_event : RemoteEvent

-- `&controlStateTracker{}`
abbrev pub new_tracker : Tracker
new_tracker = record { state = closed; pending_local_event = no_event }

create_at : ControlState → Tracker → Tracker × RemoteEvent
create_at closed t = (record t { state = created }, create)
create_at created t = (record t { pending_local_event = no_event }, no_event)
create_at added t = (record t { pending_local_event = no_event }, no_event)
create_at write_closed t = (record t { pending_local_event = create }, no_event)

unfoldable pub on_want_create : Tracker → Tracker × RemoteEvent
unfolding create_at
on_want_create t = create_at t.state t

close_at : ControlState → Tracker → Tracker × RemoteEvent
close_at closed t = (record t { pending_local_event = no_event }, no_event)
close_at created t = (record t { pending_local_event = close }, no_event)
close_at added t = (record t { state = write_closed; pending_local_event = no_event }, close)
close_at write_closed t = (record t { pending_local_event = no_event }, no_event)

unfoldable pub on_want_close : Tracker → Tracker × RemoteEvent
unfolding close_at
on_want_close t = close_at t.state t

unfoldable pub handle_local_event : LocalEvent → Tracker → Tracker × RemoteEvent
unfolding on_want_create on_want_close
handle_local_event want_close t = on_want_close t
handle_local_event want_create t = on_want_create t
handle_local_event no_local t = (t, no_event)

pending_at : RemoteEvent → Tracker → Tracker × RemoteEvent
unfolding on_want_create on_want_close
pending_at close t = on_want_close t
pending_at create t = on_want_create t
pending_at no_event t = (t, no_event)
pending_at create_ack t = (t, no_event)
pending_at close_ack t = (t, no_event)

unfoldable pub handle_pending_event : Tracker → Tracker × RemoteEvent
unfolding pending_at
handle_pending_event t = pending_at t.pending_local_event t

-- The results of `handleRemoteEvent`: the response and whether the state changed, or
-- `errUnexpectedEvent` with the state and the event that annotate it.
pub data Reply : Type 0 where
  accepted : RemoteEvent → Bool → Reply
  unexpected : ControlState → RemoteEvent → Reply

same_state : ControlState → ControlState → Bool
same_state closed closed = true
same_state created created = true
same_state added added = true
same_state write_closed write_closed = true
same_state _ _ = false

-- The tracker in the state `s`, with the response and `t.state != prevState`.
accept : Tracker → ControlState → RemoteEvent → Tracker × Reply
unfolding same_state
accept t s response = (record t { state = s }, accepted response (not (same_state s t.state)))

reject : Tracker → RemoteEvent → Tracker × Reply
reject t e = (t, unexpected t.state e)

-- The `switch` of `handleRemoteEvent`, with the state that its cases test.
remote_at : RemoteEvent → ControlState → Tracker → Tracker × Reply
unfolding accept reject
remote_at create closed t = accept t added create_ack
remote_at create added t = accept t added create_ack
remote_at create_ack created t = accept t added no_event
remote_at close added t = accept t closed close_ack
remote_at close closed t = accept t closed close_ack
remote_at close_ack write_closed t = accept t closed no_event
remote_at e s t = reject t e

unfoldable pub handle_remote_event : RemoteEvent → Tracker → Tracker × Reply
unfolding remote_at
handle_remote_event e t = remote_at e t.state t
