-- ===== src/Tracks.antt =====
-- server/sfu/tracks_manager.go: the peer managers of the rooms. Managers are shared by pointers: they
-- stand in a heap, and a room holds the number of its own. The goroutine of `Add`, which waits until
-- its transport is done, is an operation of its own, with the manager that it has captured.
pub mod Rooms
mod Examples
use native.Mathlib.Decide.{ℕ_discrete}
use peer_calls.Base.{
  ℕ, suc, Bool, true, false, Option, none, some, List, [], ◌∷◌, ◌++◌, ◌==◌, map, if◌then◌else◌,
}
use peer_calls.Base.Dict.{get, set, delete}
use peer_calls.PubSub.Reader.{TrackReader}
use peer_calls.PubSub.Broker.{Transport, Calls, PubSubError, write, new_pub_sub}
use peer_calls.MultiErr.{MultiErr}
use peer_calls.PubSub.Hub.{new_hub}
use peer_calls.Peers.{
  PeerManager, PeerEffect, PeerError, add_transport, remove_transport, sub_peer, unsub_peer,
  size_of, close_peers,
}

pub record TracksManager : Type 0 where
  pub peer_managers : List (ℕ × ℕ)
  pub managers : ℕ → PeerManager
  pub next_manager : ℕ

pub data TracksEffect : Type 0 where
  peer_effect : ℕ → PeerEffect → TracksEffect
  manager_closed : ℕ → TracksEffect

pub data TracksError : Type 0 where
  room_not_found : TracksError
  peer_error : PeerError → TracksError
  unsub_errors : MultiErr PubSubError → TracksError

-- `NewPeerManager`
unfoldable pub new_peer_manager : (ℕ → TrackReader) → PeerManager
new_peer_manager readers = record {
  transports = [];
  pli_times = [];
  pubsub = new_pub_sub readers;
  hub = new_hub;
  torn_down = false;
}

-- The room's manager, or a new one.
abbrev pub manager_or_new : (ℕ → TrackReader) → ℕ → Option ℕ → TracksManager → TracksManager × ℕ
manager_or_new readers room (some ref) t = (t, ref)
manager_or_new readers room none t = (
  record {
    peer_managers = set ℕ_discrete room t.next_manager t.peer_managers;
    managers = write t.next_manager (new_peer_manager readers) t.managers;
    next_manager = suc t.next_manager;
  },
  t.next_manager,
)

module _ (calls : Calls) where
  -- `Add` up to the goroutine that it starts.
  unfoldable pub add_peer :
      (ℕ → TrackReader)
      → ℕ
      → Transport
      → TracksManager
      → TracksManager × List TracksEffect × Option ℕ
  add_peer readers room tr t =
      let (t1, ref) = manager_or_new readers room (get ℕ_discrete room t.peer_managers) t in
      let (m, effects, sub) = add_transport calls tr (t1.managers ref) in
      (record t1 { managers = write ref m t1.managers }, map (peer_effect ref) effects, sub)

  -- The goroutine of `Add` once its transport is done.
  unfoldable pub transport_done :
      ℕ → ℕ → Transport → TracksManager → TracksManager × List TracksEffect
  transport_done room ref tr t =
      let (m, effects, error) = remove_transport calls tr (t.managers ref) in
      let (m', closes) = close_peers m in
      if size_of m == 0
      then (
        record t {
          managers = write ref m' t.managers;
          peer_managers = delete ℕ_discrete room t.peer_managers;
        },
        map (peer_effect ref) (effects ++ closes) ++ (manager_closed ref ∷ []),
      )
      else (record t { managers = write ref m t.managers }, map (peer_effect ref) effects)

  abbrev sub_room_at :
      ℕ → ℕ → ℕ → Option ℕ → TracksManager → TracksManager × List TracksEffect × Option TracksError
  sub_room_at pub_client track client none t = (t, [], some room_not_found)
  sub_room_at pub_client track client (some ref) t =
      let (m, effects, error) = sub_peer calls pub_client track client (t.managers ref) in
      (
        record t { managers = write ref m t.managers },
        map (peer_effect ref) effects,
        elim error [ none ↦ none | some e ↦ some (peer_error e) ],
      )

  -- `Sub`
  unfoldable pub sub_room :
      ℕ → ℕ → ℕ → ℕ → TracksManager → TracksManager × List TracksEffect × Option TracksError
  sub_room room pub_client track client t =
      sub_room_at pub_client track client (get ℕ_discrete room t.peer_managers) t

  abbrev unsub_room_at :
      ℕ → ℕ → ℕ → Option ℕ → TracksManager → TracksManager × List TracksEffect × Option TracksError
  unsub_room_at pub_client track client none t = (t, [], some room_not_found)
  unsub_room_at pub_client track client (some ref) t =
      let (m, effects, errs) = unsub_peer calls pub_client track client (t.managers ref) in
      (
        record t { managers = write ref m t.managers },
        map (peer_effect ref) effects,
        elim errs [ none ↦ none | some es ↦ some (unsub_errors es) ],
      )

  -- `Unsub`
  unfoldable pub unsub_room :
      ℕ → ℕ → ℕ → ℕ → TracksManager → TracksManager × List TracksEffect × Option TracksError
  unsub_room room pub_client track client t =
      unsub_room_at pub_client track client (get ℕ_discrete room t.peer_managers) t
