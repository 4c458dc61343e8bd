-- ===== src/Room/Channel.antt =====
-- server/room.go: the events of `ChannelRoomManager`.
use native.Mathlib.Decide.{ℕ_discrete}
use peer_calls.Base.{
  ℕ, ◌+◌, ◌-◌, ◌%◌, ◌≡◌, sym, refl, arith, Bool, true, false, Option, none, some, List, [], ◌∷◌,
  ◌==◌, if◌then◌else◌, inl, inr, Option-cases, Bool-cases,
}
use peer_calls.Base.Dict.{
  get, set, delete, get-set_self, get-set_ne, get-delete_self, get-delete_ne,
}
use peer_calls.Room.{
  AdapterCounter, Rooms, enter, enter_at, exit, exit_at, two64, RoomEventType, room_add,
  room_remove, RoomEvent, ChannelRoomManager, new_channel_room_manager, send, notify, channel_enter,
  channel_exit, channel_close,
}
use peer_calls.Room.Occupancy.{is_some}

-- The people who come and go.
pub data Visit : Type 0 where
  come leave : ℕ → Visit

-- An event of a room that is open, or not: the other kind follows.
abbrev pub follow : RoomEventType → Bool → Option Bool
follow room_add false = some true
follow room_add true = none
follow room_remove true = some false
follow room_remove false = none

abbrev pub follow_option : RoomEventType → Option Bool → Option Bool
follow_option typ none = none
follow_option typ (some b) = follow typ b

-- Whether room `k` is open after events, the newest first; none if its events do not alternate.
abbrev pub open_after : ℕ → List RoomEvent → Option Bool
open_after k [] = some false
open_after k (e ∷ es) =
    if k == e.room_name then follow_option e.event_type (open_after k es) else open_after k es

module _ {ℓ} {A : Type ℓ} (new_adapter : ℕ → A) where
  abbrev pub has_room : Rooms A → ℕ → Bool
  has_room rooms k = is_some (get ℕ_discrete k rooms)

  has_room-set :
      (room : ℕ) (ac : AdapterCounter A) (rooms : Rooms A) (k : ℕ)
      → has_room (set ℕ_discrete room ac rooms) k ≡ (if k == room then true else has_room rooms k)
  has_room-set room ac rooms k = elim (ℕ_discrete room k) [
    | yes e ↦ rw (sym e) (rw (get-set_self ℕ_discrete room ac rooms) (ground arith))
    | no n ↦ rw (get-set_ne ℕ_discrete room k ac rooms n) (ground arith)
  ]

  has_room-delete :
      (room : ℕ) (rooms : Rooms A) (k : ℕ)
      → has_room (delete ℕ_discrete room rooms) k ≡ (if k == room then false else has_room rooms k)
  has_room-delete room rooms k = elim (ℕ_discrete room k) [
    | yes e ↦ rw (sym e) (rw (get-delete_self ℕ_discrete room rooms) (ground arith))
    | no n ↦ rw (get-delete_ne ℕ_discrete room k rooms n) (ground arith)
  ]

  -- The events say which rooms there are.
  abbrev pub Announced : ChannelRoomManager A → Type 0
  Announced m =
      (m.room_events_closed ≡ false)
      × (m.closed_chan_closed ≡ false)
      × ((k : ℕ) → open_after k m.room_events ≡ some (has_room m.rooms k))

  unfoldable pub visit : Visit → ChannelRoomManager A → Option (ChannelRoomManager A)
  visit (come room) m = channel_enter new_adapter room m
  visit (leave room) m = channel_exit room m

  channel_enter-Announced :
      (room : ℕ) (m : ChannelRoomManager A)
      → Announced m
      → (m' : ChannelRoomManager A) × (channel_enter new_adapter room m ≡ some m') × Announced m'
  unfolding channel_enter enter
  channel_enter-Announced room m (o, c, h) = elim (Option-cases (get ℕ_discrete room m.rooms)) [
    | inl e ↦
        let new : AdapterCounter A = record { count = 1; adapter = new_adapter room } in
        (
          record m {
            rooms = set ℕ_discrete room new m.rooms;
            room_events = record { room_name = room; event_type = room_add } ∷ m.room_events;
          },
          rw e (unfold enter_at notify send in rw (c, o) refl),
          (o, c, λ k. ground (arith, has_room-set room new m.rooms k, h k, e)),
        )
    | inr (ac, e) ↦
        let more : AdapterCounter A = record ac { count = (ac.count + 1) % two64 } in
        (
          record m { rooms = set ℕ_discrete room more m.rooms },
          rw e (unfold enter_at notify in refl),
          (o, c, λ k. ground (arith, has_room-set room more m.rooms k, h k, e)),
        )
  ]

  channel_exit-Announced :
      (room : ℕ) (m : ChannelRoomManager A)
      → Announced m
      → (m' : ChannelRoomManager A) × (channel_exit room m ≡ some m') × Announced m'
  unfolding channel_exit exit
  channel_exit-Announced room m (o, c, h) = elim (Option-cases (get ℕ_discrete room m.rooms)) [
    | inl e ↦ (m, rw e (unfold exit_at notify in refl), (o, c, h))
    | inr (ac, e) ↦
        let less : AdapterCounter A = record ac { count = (ac.count + two64 - 1) % two64 } in
        elim (Bool-cases (less.count == 0)) [
          | inl z ↦ (
            record m {
              rooms = delete ℕ_discrete room m.rooms;
              room_events = record { room_name = room; event_type = room_remove } ∷ m.room_events;
            },
            rw e (unfold exit_at notify send in rw z (rw (c, o) refl)),
            (o, c, λ k. ground (arith, has_room-delete room m.rooms k, h k, e)),
          )
          | inr n ↦ (
            record m { rooms = set ℕ_discrete room less m.rooms },
            rw e (unfold exit_at notify in rw n refl),
            (o, c, λ k. ground (arith, has_room-set room less m.rooms k, h k, e)),
          )
        ]
  ]

  unfoldable pub visit_all : List Visit → ChannelRoomManager A → Option (ChannelRoomManager A)
  visit_all [] m = some m
  visit_all (v ∷ vs) m = elim (visit v m) [ none ↦ none | some m' ↦ visit_all vs m' ]

  visit-Announced :
      (v : Visit) (m : ChannelRoomManager A)
      → Announced m
      → (m' : ChannelRoomManager A) × (visit v m ≡ some m') × Announced m'
  unfolding visit
  visit-Announced (come room) m h = channel_enter-Announced room m h
  visit-Announced (leave room) m h = channel_exit-Announced room m h

  visit_all-Announced :
      (vs : List Visit) (m : ChannelRoomManager A)
      → Announced m
      → (m' : ChannelRoomManager A) × (visit_all vs m ≡ some m') × Announced m'
  unfolding visit_all
  visit_all-Announced [] m h = (m, refl, h)
  visit_all-Announced (v ∷ vs) m h =
      let (m1, e, h1) = visit-Announced v m h in
      let (m2, e2, h2) = visit_all-Announced vs m1 h1 in (m2, rw (e, visit_all) e2, h2)

  -- Whoever comes and goes, in whatever order: nothing panics, the events of each room alternate,
  -- a beginning first, and the rooms whose last event is a beginning are the rooms there are.
  pub room_events_alternate :
      (vs : List Visit) (k : ℕ)
      → (m : ChannelRoomManager A) × (visit_all vs new_channel_room_manager ≡ some m)
        × (open_after k m.room_events ≡ some (has_room m.rooms k))
  room_events_alternate vs k =
      let (m, e, (o, c, h)) =
        visit_all-Announced vs new_channel_room_manager
          (unfold new_channel_room_manager get in (refl, refl, λ j. refl)) in
      (m, e, h k)

  -- `Close` does not close the channel that the methods ask about. The next room that begins
  -- panics, by its event.
  pub enter_after_close :
      (room : ℕ) (m : ChannelRoomManager A)
      → Announced m
      → has_room m.rooms room ≡ false
      → channel_enter new_adapter room (channel_close m) ≡ none
  unfolding channel_enter enter channel_close
  enter_after_close room m (o, c, h) absent = elim (Option-cases (get ℕ_discrete room m.rooms)) [
    | inl e ↦ rw e (unfold enter_at notify send in rw c refl)
    | inr (ac, e) ↦ absurd (ground (arith, e, absent))
  ]
