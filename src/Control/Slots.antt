-- ===== src/Control/Slots.antt =====
-- server/udptransport2/factory.go: what the handlers do with the slot of a stream and with the map
-- of all streams.
use peer_calls.Base.{◌≡◌, ◌≢◌, ◌↔◌, true, false, Option, none, some, List, arith}
use peer_calls.Base.Dict.{get, get-set_self, get-set_ne, get-delete_self, get-delete_ne}
use mathlib.Core.Path.{subst}
use peer_calls.Control.{closed, RemoteEvent, LocalEvent, handle_remote_event}
use peer_calls.Control.Events.{IsUnexpected}
use peer_calls.Control.Factory.{
  Slot, Env, remote_slot, local_slot, slot_or_new, store, handle_remote, handle_local,
}

pub record IsSound (s : Slot) : Type 0 where
  pub closed_none : s.tracker.state ≡ closed → s.transport ≡ none
  pub open_some : s.tracker.state ≢ closed → s.transport ≢ none

abbrev pub SoundOption : Option Slot → Type 0
SoundOption none = Unit
SoundOption (some s) = IsSound s

pub slot_or_new-IsSound : (o : Option Slot) → SoundOption o → IsSound (slot_or_new o)
slot_or_new-IsSound none h = ground arith
slot_or_new-IsSound (some s) h = h

pub remote_slot-SoundOption :
    (env : Env) (e : RemoteEvent) (s : Slot)
    → env.new_transport ≢ none
    → IsSound s
    → SoundOption (remote_slot env e s).slot
unfolding remote_slot
remote_slot-SoundOption env e s h sound = ground arith

pub local_slot-SoundOption :
    (env : Env) (e : LocalEvent) (s : Slot)
    → env.new_transport ≢ none
    → IsSound s
    → SoundOption (local_slot env e s).slot
unfolding local_slot
local_slot-SoundOption env e s h sound = ground arith

-- While transports can be created, sends succeed and nobody tears the factory down, the handler
-- of a remote event on a sound slot ends the event loop exactly for an event that the tracker
-- refuses: its checks for a nil transport never fire.
pub remote_slot_stops :
    (env : Env) (e : RemoteEvent) (s : Slot)
    → env.new_transport ≢ none
    → env.torn_down ≡ false
    → env.send_ok ≡ true
    → IsSound s
    → ((remote_slot env e s).go_on ≡ false) ↔ IsUnexpected (handle_remote_event e s.tracker).1
unfolding remote_slot
remote_slot_stops env e s h torn ok sound = (stops, refused)
  where
    stops : (remote_slot env e s).go_on ≡ false → IsUnexpected (handle_remote_event e s.tracker).1
    stops f = ground arith

    refused : IsUnexpected (handle_remote_event e s.tracker).1 → (remote_slot env e s).go_on ≡ false
    refused f = ground arith

module _ {ℓ} {RoomId : Type ℓ} (dec : Discrete RoomId) where
  -- The handlers of one stream leave the slots of all other streams as they were.
  pub handlers_frame :
      (env : Env) (r q : RoomId) (e : RemoteEvent) (l : LocalEvent) (m : List (RoomId × Slot))
      → r ≢ q
      → (get dec q (handle_remote dec env r e m).0 ≡ get dec q m)
        × (get dec q (handle_local dec env r l m).0 ≡ get dec q m)
  unfolding handle_remote handle_local
  handlers_frame env r q e l m h = (
    stored (remote_slot env e (slot_or_new (get dec r m))).slot,
    stored (local_slot env l (slot_or_new (get dec r m))).slot,
  )
    where
      stored : (o : Option Slot) → get dec q (store dec r o m) ≡ get dec q m
      stored none = unfold store in get-delete_ne dec r q m h
      stored (some s) = unfold store in get-set_ne dec r q s m h

  get-store :
      (r : RoomId) (o : Option Slot) (m : List (RoomId × Slot)) → get dec r (store dec r o m) ≡ o
  unfolding store
  get-store r none m = get-delete_self dec r m
  get-store r (some s) m = get-set_self dec r s m

  -- The transports of all streams are sound.
  abbrev pub AllSound : List (RoomId × Slot) → Type ℓ
  AllSound m = (q : RoomId) → SoundOption (get dec q m)

  store-AllSound :
      (r : RoomId) (o : Option Slot) (m : List (RoomId × Slot))
      → SoundOption o
      → AllSound m
      → AllSound (store dec r o m)
  store-AllSound r o m h all q = elim (dec r q) [
    | yes p ↦ subst (λ k. SoundOption (get dec k (store dec r o m))) p (rw (get-store r o m) h)
    | no n ↦ rw (other o n) (all q)
  ]
    where
      other : (o : Option Slot) → r ≢ q → get dec q (store dec r o m) ≡ get dec q m
      other none n = unfold store in get-delete_ne dec r q m n
      other (some s) n = unfold store in get-set_ne dec r q s m n

  -- The handler of a remote event, in any environment in which transports can be created, keeps
  -- every stream's slot sound: it has a transport exactly while its tracker is not closed.
  pub handle_remote-AllSound :
      (env : Env) (r : RoomId) (e : RemoteEvent) (m : List (RoomId × Slot))
      → env.new_transport ≢ none
      → AllSound m
      → AllSound (handle_remote dec env r e m).0
  unfolding handle_remote
  handle_remote-AllSound env r e m h all =
      store-AllSound r _ m (remote_slot-SoundOption env e _ h (slot_or_new-IsSound _ (all r))) all

  -- The handler of a local event, in any environment in which transports can be created, keeps
  -- every stream's slot sound: it has a transport exactly while its tracker is not closed.
  pub handle_local-AllSound :
      (env : Env) (r : RoomId) (e : LocalEvent) (m : List (RoomId × Slot))
      → env.new_transport ≢ none
      → AllSound m
      → AllSound (handle_local dec env r e m).0
  unfolding handle_local
  handle_local-AllSound env r e m h all =
      store-AllSound r _ m (local_slot-SoundOption env e _ h (slot_or_new-IsSound _ (all r))) all
