-- ===== src/Control/Factory.antt =====
-- The control events of server/udptransport2/factory.go: the two handlers of `Factory.start`, which
-- keep a transport and a tracker for every stream. The select on `f.teardown`, the result of
-- `createTransport` and the result of `control.Send` are the environment's.
use peer_calls.Base.{ℕ, Bool, true, false, Option, none, some, List, [], ◌∷◌, ◌++◌, if◌then◌else◌}
use peer_calls.Base.Dict.{get, set, delete}
use peer_calls.Control.{
  Tracker, new_tracker, LocalEvent, RemoteEvent, no_event, create, create_ack, close, close_ack,
  Reply, accepted, unexpected, handle_local_event, handle_remote_event,
}

-- A `*Transport` is known by its number; `none` is nil.
pub record Slot : Type 0 where
  pub transport : Option ℕ
  pub tracker : Tracker

pub record Env : Type 0 where
  pub new_transport : Option ℕ
  pub torn_down : Bool
  pub send_ok : Bool

-- What a handler does outside its own state: a send on `transportsChannel`, calls of a
-- transport's `CloseWrite` and `Close`, and a control event sent to the other node.
pub data Effect : Type 0 where
  deliver : Option ℕ → Effect
  close_write : ℕ → Effect
  close_transport : ℕ → Effect
  send : RemoteEvent → Effect

-- The slot afterwards, or `none` where it is deleted from `transports`; what was done, in order;
-- and the handler's result: false ends the event loop.
pub record Outcome : Type 0 where
  pub slot : Option Slot
  pub effects : List Effect
  pub go_on : Bool

abbrev outcome : Option Slot → List Effect → Bool → Outcome
outcome s es b = record { slot = s; effects = es; go_on = b }

-- The last block of both handlers: the event, if there is one, is sent.
respond : Env → Option Slot → List Effect → RemoteEvent → Outcome
respond env s es no_event = outcome s es true
respond env s es e =
    if env.send_ok then outcome s (es ++ (send e ∷ [])) true else outcome s es false

-- `case f.transportsChannel <- transport:` against `case <-f.teardown:`.
deliver_or_stop : Env → Slot → Option ℕ → RemoteEvent → Outcome
unfolding respond
deliver_or_stop env s t response =
    if env.torn_down
    then outcome (some s) [] false
    else respond env (some s) (deliver t ∷ []) response

-- The `switch` under `if stateChanged`, by event and by the slot's transport.
changed_at : Env → RemoteEvent → Option ℕ → Slot → RemoteEvent → Outcome
unfolding deliver_or_stop
changed_at env create _ s response =
    deliver_or_stop env (record s { transport = env.new_transport }) env.new_transport response
changed_at env create_ack none s response = outcome (some s) [] false
changed_at env create_ack (some t) s response = deliver_or_stop env s (some t) response
changed_at env close none s response = outcome (some s) [] false
changed_at env close (some t) s response =
    respond env none (close_write t ∷ close_transport t ∷ []) response
changed_at env close_ack none s response = outcome (some s) [] false
changed_at env close_ack (some t) s response = respond env none (close_transport t ∷ []) response
changed_at env no_event _ s response = respond env (some s) [] response

after_remote : Env → RemoteEvent → Slot → Reply → Outcome
unfolding changed_at
after_remote env e s (unexpected _ _) = outcome (some s) [] false
after_remote env e s (accepted response true) = changed_at env e s.transport s response
after_remote env e s (accepted response false) = respond env (some s) [] response

unfoldable pub remote_slot : Env → RemoteEvent → Slot → Outcome
unfolding after_remote handle_remote_event
remote_slot env e s =
    let (t, reply) = handle_remote_event e s.tracker in
    after_remote env e (record s { tracker = t }) reply

-- The `switch remoteEvent` of `handleLocalEvent`.
after_local : Env → RemoteEvent → Option ℕ → Slot → Outcome
unfolding respond
after_local env create _ s = elim env.new_transport [
  | none ↦ outcome (some s) [] false
  | some t ↦ respond env (some (record s { transport = some t })) [] create
]
after_local env close none s = outcome (some s) [] false
after_local env close (some t) s = respond env (some s) (close_write t ∷ []) close
after_local env e _ s = respond env (some s) [] e

unfoldable pub local_slot : Env → LocalEvent → Slot → Outcome
unfolding after_local handle_local_event
local_slot env e s =
    let (t, event) = handle_local_event e s.tracker in
    after_local env event s.transport (record s { tracker = t })

-- `t, ok := transports[streamID]`, with the new slot where the stream has none.
abbrev pub slot_or_new : Option Slot → Slot
slot_or_new (some s) = s
slot_or_new none = record { transport = none; tracker = new_tracker }

module _ {ℓ} {RoomId : Type ℓ} (dec : Discrete RoomId) where
  unfoldable pub store : RoomId → Option Slot → List (RoomId × Slot) → List (RoomId × Slot)
  store r none m = delete dec r m
  store r (some s) m = set dec r s m

  -- The handlers on the map `transports`, for the stream `r`.
  unfoldable pub handle_remote :
      Env → RoomId → RemoteEvent → List (RoomId × Slot) → List (RoomId × Slot) × List Effect × Bool
  unfolding store
  handle_remote env r e m =
      let o = remote_slot env e (slot_or_new (get dec r m)) in
      (store r o.slot m, o.effects, o.go_on)

  unfoldable pub handle_local :
      Env → RoomId → LocalEvent → List (RoomId × Slot) → List (RoomId × Slot) × List Effect × Bool
  unfolding store
  handle_local env r e m =
      let o = local_slot env e (slot_or_new (get dec r m)) in (store r o.slot m, o.effects, o.go_on)
