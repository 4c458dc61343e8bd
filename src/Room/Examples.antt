-- ===== src/Room/Examples.antt =====
-- The theorems about the rooms at concrete inputs.
use peer_calls.Base.{ℕ, ◌+◌, ◌≡◌, refl, arith, some, [], ◌∷◌, ◌==◌, if◌then◌else◌}
use peer_calls.Base.Dict.{get}
use peer_calls.Room.{Rooms, enter, ChannelRoomManager, new_channel_room_manager}
use peer_calls.Room.Occupancy.{people, AllInUse, enter_lem}
use peer_calls.Room.Channel.{come, leave, open_after, has_room, visit_all, room_events_alternate}

-- An adapter that is its room.
abbrev own_adapter : ℕ → ℕ
own_adapter room = room

empty-AllInUse : AllInUse {A = ℕ} []
empty-AllInUse k = unfold get in refl

entered :
    let (rooms', adapter, is_new) = enter own_adapter 4 [] in
    AllInUse rooms'
    × (is_new ≡ (people {A = ℕ} [] 4 == 0))
    × ((k : ℕ)
        → people rooms' k ≡ (if k == 4 then people {A = ℕ} [] k + 1 else people {A = ℕ} [] k))
entered = enter_lem own_adapter 4 [] empty-AllInUse (unfold get in omega arith)

abbrev one_in : Rooms ℕ
one_in = (enter own_adapter 4 []).0

empty_four : people {A = ℕ} [] 4 ≡ 0
unfolding get
empty_four = refl

one_person : people one_in 4 ≡ 1
one_person = ground (arith, entered.2 4, empty_four)

room_events_alternate_example :
    (m : ChannelRoomManager ℕ) × (visit_all own_adapter
        (come 4 ∷ come 4 ∷ leave 4 ∷ leave 4 ∷ [])
        new_channel_room_manager
      ≡ some m)
    × (open_after 4 m.room_events ≡ some (has_room own_adapter m.rooms 4))
room_events_alternate_example =
    room_events_alternate own_adapter (come 4 ∷ come 4 ∷ leave 4 ∷ leave 4 ∷ []) 4
