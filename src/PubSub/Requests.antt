-- ===== src/PubSub/Requests.antt =====
-- server/pubsub/pubsub.go: what clients ask of the published tracks, and what is asked about them.
use native.Mathlib.Decide.{ℕ_discrete}
use peer_calls.Base.{ℕ, Option, none, some, List, [], ◌∷◌, ◌++◌, ◌==◌, map, if◌then◌else◌}
use peer_calls.Base.Dict.{get, set}
use peer_calls.MultiErr.{MultiErr}
use peer_calls.Bitrate.{BitrateEstimator}
use peer_calls.PubSub.Reader.{ReaderError, ReaderEffect, TrackReader, track_of, subs_of}
use peer_calls.PubSub.Reader
use peer_calls.PubSub.Broker.{
  Publisher, Transport, Subscriber, PubSub, PubTrack, Effect, transport_add_track,
  transport_remove_track, reader_effect, PubSubError, track_not_found, subscribe_to_own_track,
  add_track_failed, reader_error, write, or_empty, new_pub_track, Calls, unsub, unpub,
}

-- The subscriber that is there already, or a new one with the transport.
abbrev pub subscriber_or_new : Transport → Option Subscriber → Subscriber
subscriber_or_new tr none = record { transport = tr; publishers_by_track = [] }
subscriber_or_new tr (some s) = s

abbrev pub add_publisher : ℕ → Publisher → Subscriber → Subscriber
add_publisher track publisher s = record s {
  publishers_by_track = set ℕ_discrete track publisher s.publishers_by_track;
}

-- The tracks of a subscriber. A missing one has none.
abbrev pub tracks_of_subscriber : Option Subscriber → List (ℕ × Publisher)
tracks_of_subscriber none = []
tracks_of_subscriber (some s) = s.publishers_by_track

-- What `Sub` returns: the local track that stands for the sender, or an error.
pub data SubResult : Type 0 where
  subscribed : ℕ → SubResult
  sub_failed : PubSubError → SubResult

module _ (calls : Calls) where
  -- `sub` after `reader.Sub`.
  unfoldable pub entered :
      Publisher
      → Transport
      → ℕ
      → TrackReader × List ReaderEffect × Option ReaderError
      → PubSub
      → PubSub × List Effect × SubResult
  entered publisher tr local (reader, told, some e) p = (
    p,
    transport_remove_track tr (track_of (p.readers publisher.reader)).track_id ∷ [],
    sub_failed (reader_error e),
  )
  entered publisher tr local (reader, told, none) p =
      let track = (track_of (p.readers publisher.reader)).track_id in
      let s = subscriber_or_new tr (get ℕ_discrete tr.client_id p.subs_by_sub_client_id) in
      (
        record p {
          readers = write publisher.reader reader p.readers;
          subs_by_sub_client_id =
              set ℕ_discrete tr.client_id (add_publisher track publisher s) p.subs_by_sub_client_id;
        },
        map (reader_effect publisher.reader) told,
        subscribed local,
      )

  -- `sub` after `AddTrack`.
  unfoldable pub added :
      Publisher → Transport → Option ℕ → PubSub → PubSub × List Effect × SubResult
  added publisher tr none p = (p, [], sub_failed add_track_failed)
  added publisher tr (some local) p =
      entered publisher tr local (Reader.sub tr.client_id local (p.readers publisher.reader)) p

  unfoldable pub sub_at : Transport → Option Publisher → PubSub → PubSub × List Effect × SubResult
  sub_at tr none p = (p, [], sub_failed track_not_found)
  sub_at tr (some publisher) p =
      let track = (track_of (p.readers publisher.reader)).track_id in
      let (p', effects, result) = added publisher tr (calls.adds tr track) p in
      (p', transport_add_track tr track ∷ effects, result)

  -- `Sub`
  unfoldable pub subscribe : ℕ → ℕ → Transport → PubSub → PubSub × List Effect × SubResult
  subscribe pub_client track tr p =
      if pub_client == tr.client_id
      then (p, [], sub_failed subscribe_to_own_track)
      else sub_at tr (get ℕ_discrete track p.publishers) p

  unfoldable pub unsub_at :
      ℕ → Option Publisher → PubSub → PubSub × List Effect × Option (MultiErr PubSubError)
  unsub_at client none p = (p, [], some (track_not_found ∷ []))
  unsub_at client (some publisher) p = unsub calls client publisher p

  -- `Unsub`, which takes the publisher's client only for its log.
  unfoldable pub unsubscribe :
      ℕ → ℕ → ℕ → PubSub → PubSub × List Effect × Option (MultiErr PubSubError)
  unsubscribe pub_client track client p = unsub_at client (get ℕ_discrete track p.publishers) p

  -- The two loops of `Terminate`. Go's loops meet each entry once, also where the body deletes it.
  unfoldable pub unpub_readers : ℕ → List ℕ → PubSub → PubSub × List Effect
  unpub_readers client [] p = (p, [])
  unpub_readers client (reader ∷ readers) p =
      let (p1, effects) = unpub calls client (track_of (p.readers reader)).track_id p in
      let (p2, more) = unpub_readers client readers p1 in (p2, effects ++ more)

  unfoldable pub unsub_publishers : ℕ → List (ℕ × Publisher) → PubSub → PubSub × List Effect
  unsub_publishers client [] p = (p, [])
  unsub_publishers client ((track, publisher) ∷ publishers) p =
      let (p1, effects, _) = unsub calls client publisher p in
      let (p2, more) = unsub_publishers client publishers p1 in (p2, effects ++ more)

  unfoldable pub terminate : ℕ → PubSub → PubSub × List Effect
  terminate client p =
      let (p1, effects) =
        unpub_readers client (or_empty (get ℕ_discrete client p.publishers_by_pub_client_id)) p in
      let (p2, more) =
        unsub_publishers client
          (tracks_of_subscriber (get ℕ_discrete client p1.subs_by_sub_client_id)) p1 in
      (p2, effects ++ more)

-- `Subscribers`, which takes the publisher's client but does not use it.
unfoldable pub subscribers : ℕ → ℕ → PubSub → List ℕ
subscribers pub_client track p = elim (get ℕ_discrete track p.publishers) [
  | none ↦ []
  | some publisher ↦ subs_of (p.readers publisher.reader).subs
]

pub record TrackProps : Type 0 where
  pub client_id : ℕ
  pub ssrc : ℕ
  pub rid : ℕ

unfoldable pub track_props_by_track_id : ℕ → PubSub → Option TrackProps
track_props_by_track_id track p = elim (get ℕ_discrete track p.publishers) [
  | none ↦ none
  | some publisher ↦
      let remote = (p.readers publisher.reader).track_remote in
      some (record { client_id = publisher.client_id; ssrc = remote.ssrc; rid = remote.rid })
]

unfoldable pub bitrate_estimator_of : ℕ → PubSub → Option BitrateEstimator
bitrate_estimator_of track p = elim (get ℕ_discrete track p.publishers) [
  | none ↦ none
  | some publisher ↦ some (p.estimators publisher.bitrate_estimator)
]

unfoldable pub tracks : PubSub → List PubTrack
tracks p =
    map (λ (e : ℕ × Publisher). new_pub_track e.1.client_id (track_of (p.readers e.1.reader)))
      p.publishers
