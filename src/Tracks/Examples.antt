-- ===== src/Tracks/Examples.antt =====
-- A room whose client connects twice.
use native.Mathlib.Decide.{ℕ_discrete}
use peer_calls.Base.{ℕ, ◌≡◌, ◌≢◌, refl, true, false, none, some, []}
use peer_calls.Base.Dict.{get, set}
use peer_calls.PubSub.Reader.{audio, TrackReader, new_track_reader}
use peer_calls.PubSub.Broker.{Transport, Calls}
use peer_calls.Peers.{remove_transport}
use peer_calls.Tracks.{TracksManager, new_peer_manager, add_peer, transport_done}
use peer_calls.Tracks.Rooms.{AllLive, transport_done-AllLive, add_peer-AllLive}

abbrev fine : Calls
fine = record { adds = λ tr t. some 7; removes = λ tr t. true; unsubscribes = λ r. true }

abbrev reader_of : ℕ → TrackReader
reader_of r = new_track_reader (record {
  track = record { track_id = r; peer_id = 1; kind = audio };
  ssrc = r;
  rid = 0;
  subscribable = false;
  unsubscribable = false;
})

abbrev no_rooms : TracksManager
no_rooms = record {
  peer_managers = [];
  managers = λ ref. new_peer_manager reader_of;
  next_manager = 0;
}

no_rooms-AllLive : AllLive no_rooms
unfolding get
no_rooms-AllLive = record {
  made = λ r i e. cc e;
  own = λ r1 r2 i e f. cc e;
  in_order = λ r i e. cc e;
  not_empty = λ r i e. cc e;
}

abbrev first : Transport
first = record { transport_id = 0; client_id = 4 }

abbrev one_room : TracksManager
one_room = (add_peer fine reader_of 9 first no_rooms).0

one_room-AllLive : AllLive one_room
one_room-AllLive = add_peer-AllLive fine reader_of 9 first no_rooms no_rooms-AllLive

one_room-get : get ℕ_discrete 9 one_room.peer_managers ≡ some 0
unfolding add_peer get set ℕ_discrete
one_room-get = refl

transport_done-AllLive_example :
    let t' = (transport_done fine 9 0 first one_room).0 in
    let left = (remove_transport fine first (one_room.managers 0)).0.transports in
    AllLive t'
    × ((c : ℕ) (other : Transport)
        → get ℕ_discrete c left ≡ some other
        → get ℕ_discrete 9 t'.peer_managers ≡ some 0)
    × (left ≡ [] → get ℕ_discrete 9 t'.peer_managers ≡ none)
    × ((r : ℕ)
        → 9 ≢ r
        → get ℕ_discrete r t'.peer_managers ≡ get ℕ_discrete r one_room.peer_managers)
transport_done-AllLive_example =
    transport_done-AllLive fine 9 0 first one_room one_room-AllLive one_room-get

-- Room 9 has manager 0; manager 3 has no transports left.
empty_manager : (one_room.managers 3).transports ≡ []
unfolding add_peer new_peer_manager get
empty_manager = refl
