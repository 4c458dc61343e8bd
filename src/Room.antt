-- ===== src/Room.antt =====
-- server/room.go: rooms that live while somebody is in them, and the events of their beginning and
-- end. An adapter is made by a parameter, from the room's name; `none` is a panic.
pub mod Occupancy
pub mod Channel
mod Examples
use native.Mathlib.Decide.{ℕ_discrete}
use peer_calls.Base.{
  ℕ, ◌+◌, ◌-◌, ◌%◌, Bool, true, false, Option, none, some, List, [], ◌∷◌, ◌==◌, if◌then◌else◌, ◌&&◌,
  not,
}
use peer_calls.Base.Dict.{get, set, delete}

abbrev pub two64 : ℕ
two64 = 18446744073709551616

pub record AdapterCounter {ℓ} (A : Type ℓ) : Type ℓ where
  pub count : ℕ
  pub adapter : A

-- `AdapterRoomManager.rooms`
abbrev pub Rooms {ℓ} : Type ℓ → Type ℓ
Rooms A = List (ℕ × AdapterCounter A)

module _ {ℓ} {A : Type ℓ} where
  unfoldable pub enter_at : A → ℕ → Option (AdapterCounter A) → Rooms A → Rooms A × A × Bool
  enter_at new room (some ac) rooms =
      let ac' = record ac { count = (ac.count + 1) % two64 } in
      (set ℕ_discrete room ac' rooms, ac'.adapter, false)
  enter_at new room none rooms =
      (set ℕ_discrete room (record { count = 1; adapter = new }) rooms, new, true)

  -- `Enter`: the adapter, and whether it is new.
  unfoldable pub enter : (ℕ → A) → ℕ → Rooms A → Rooms A × A × Bool
  unfolding enter_at
  enter new_adapter room rooms = enter_at (new_adapter room) room (get ℕ_discrete room rooms) rooms

  unfoldable pub exit_at : ℕ → Option (AdapterCounter A) → Rooms A → Rooms A × Bool × Option A
  exit_at room none rooms = (rooms, false, none)
  exit_at room (some ac) rooms =
      let ac' = record ac { count = (ac.count + two64 - 1) % two64 } in
      if ac'.count == 0
      then (delete ℕ_discrete room rooms, true, some ac'.adapter)
      else (set ℕ_discrete room ac' rooms, false, none)

  -- `Exit`: whether the room is removed, and the adapter that is closed then.
  unfoldable pub exit : ℕ → Rooms A → Rooms A × Bool × Option A
  unfolding exit_at
  exit room rooms = exit_at room (get ℕ_discrete room rooms) rooms

pub data RoomEventType : Type 0 where
  room_add room_remove : RoomEventType

pub record RoomEvent : Type 0 where
  pub room_name : ℕ
  pub event_type : RoomEventType

-- `ChannelRoomManager`, with the events that went through its channel, the newest first, and
-- whether each of its two channels is closed.
pub record ChannelRoomManager {ℓ} (A : Type ℓ) : Type ℓ where
  pub rooms : Rooms A
  pub room_events : List RoomEvent
  pub room_events_closed : Bool
  pub closed_chan_closed : Bool

module _ {ℓ} {A : Type ℓ} where
  unfoldable pub new_channel_room_manager : ChannelRoomManager A
  new_channel_room_manager = record {
    rooms = [];
    room_events = [];
    room_events_closed = false;
    closed_chan_closed = false;
  }

  -- A send on a closed channel panics.
  unfoldable pub send : RoomEvent → ChannelRoomManager A → Option (ChannelRoomManager A)
  send e m =
      if m.room_events_closed then none else some (record m { room_events = e ∷ m.room_events })

  unfoldable pub notify :
      Bool → ℕ → RoomEventType → ChannelRoomManager A → Option (ChannelRoomManager A)
  unfolding send
  notify changed room typ m =
      if changed && not m.closed_chan_closed
      then send (record { room_name = room; event_type = typ }) m
      else some m

  unfoldable pub channel_enter : (ℕ → A) → ℕ → ChannelRoomManager A → Option (ChannelRoomManager A)
  unfolding notify
  channel_enter new_adapter room m =
      let (rooms', adapter, is_new) = enter new_adapter room m.rooms in
      notify is_new room room_add (record m { rooms = rooms' })

  unfoldable pub channel_exit : ℕ → ChannelRoomManager A → Option (ChannelRoomManager A)
  unfolding notify
  channel_exit room m =
      let (rooms', is_removed, adapter) = exit room m.rooms in
      notify is_removed room room_remove (record m { rooms = rooms' })

  -- `Close`, which closes the channel of the events and not `closedChan`.
  unfoldable pub channel_close : ChannelRoomManager A → ChannelRoomManager A
  channel_close m = record m { room_events_closed = true }
