-- ===== src/PubSub/Broker.antt =====
-- server/pubsub/pubsub.go and pub_track.go: the published tracks and the subscriptions. Readers and
-- bitrate estimators are shared by pointers: they stand in a heap, and a publisher holds the
-- numbers of its own. `AddTrack` and `RemoveTrack` of a transport are parameters, by the transport
-- and the track, as is whether a remote track's `Unsubscribe` succeeds. Each operation gives what it
-- asks of the transports and the readers and what it sends on `eventsChan`, in order.
use native.Mathlib.Decide.{ℕ_discrete}
use peer_calls.Base.{
  ℕ, suc, Bool, true, false, Option, none, some, List, [], ◌∷◌, ◌++◌, ◌==◌, map, length,
  if◌then◌else◌,
}
use peer_calls.Base.Dict.{get, set, delete}
use peer_calls.MultiErr.{MultiErr, add_error, err}
use peer_calls.Bitrate.{BitrateEstimator, new_bitrate_estimator, remove_client_bitrate}
use peer_calls.PubSub.Reader.{
  TrackKind, Track, TrackReader, ReaderError, ReaderEffect, track_of, subs_of,
}
use peer_calls.PubSub.Reader

pub record Publisher : Type 0 where
  pub client_id : ℕ
  pub reader : ℕ
  pub bitrate_estimator : ℕ

-- A transport is the one of a client.
pub record Transport : Type 0 where
  pub transport_id : ℕ
  pub client_id : ℕ

pub record Subscriber : Type 0 where
  pub transport : Transport
  pub publishers_by_track : List (ℕ × Publisher)

pub record PubSub : Type 0 where
  pub readers : ℕ → TrackReader
  pub estimators : ℕ → BitrateEstimator
  pub next_estimator : ℕ
  pub publishers : List (ℕ × Publisher)
  pub publishers_by_pub_client_id : List (ℕ × List ℕ)
  pub subs_by_sub_client_id : List (ℕ × Subscriber)

pub record PubTrack : Type 0 where
  pub client_id : ℕ
  pub peer_id : ℕ
  pub track_id : ℕ
  pub kind : TrackKind

pub data TrackEventType : Type 0 where
  track_add track_remove track_sub track_unsub : TrackEventType

pub data Effect : Type 0 where
  published : PubTrack → TrackEventType → Effect
  transport_add_track transport_remove_track : Transport → ℕ → Effect
  reader_effect : ℕ → ReaderEffect → Effect

pub data PubSubError : Type 0 where
  track_not_found sub_not_found subscribe_to_own_track add_track_failed remove_track_failed :
      PubSubError
  reader_error : ReaderError → PubSubError

abbrev pub write : {A : Type 0} → ℕ → A → (ℕ → A) → ℕ → A
write i a cells j = if i == j then a else cells j

unfoldable pub new_pub_sub : (ℕ → TrackReader) → PubSub
new_pub_sub readers = record {
  readers = readers;
  estimators = λ _. new_bitrate_estimator;
  next_estimator = 0;
  publishers = [];
  publishers_by_pub_client_id = [];
  subs_by_sub_client_id = [];
}

unfoldable pub new_pub_track : ℕ → Track → PubTrack
new_pub_track client track = record {
  client_id = client;
  peer_id = track.peer_id;
  track_id = track.track_id;
  kind = track.kind;
}

-- A `readerSet`: a reader is added where it is not there yet.
abbrev pub has_reader : ℕ → List ℕ → Bool
has_reader r [] = false
has_reader r (i ∷ set) = if i == r then true else has_reader r set

abbrev pub without_reader : ℕ → List ℕ → List ℕ
without_reader r [] = []
without_reader r (i ∷ set) = if i == r then without_reader r set else i ∷ without_reader r set

abbrev pub with_reader : ℕ → List ℕ → List ℕ
with_reader r set = if has_reader r set then set else r ∷ set

-- A missing key of a map of sets reads as the empty set.
abbrev pub or_empty : {A : Type 0} → Option (List A) → List A
or_empty none = []
or_empty (some set) = set

unfoldable pub pub_track : ℕ → ℕ → PubSub → PubSub × List Effect
pub_track client reader p =
    let track = track_of (p.readers reader) in
    let publisher : Publisher = record {
      client_id = client;
      reader = reader;
      bitrate_estimator = p.next_estimator;
    } in
    (
      record p {
        estimators = write p.next_estimator new_bitrate_estimator p.estimators;
        next_estimator = suc p.next_estimator;
        publishers = set ℕ_discrete track.track_id publisher p.publishers;
        publishers_by_pub_client_id =
            set ℕ_discrete client
              (with_reader reader (or_empty (get ℕ_discrete client p.publishers_by_pub_client_id)))
              p.publishers_by_pub_client_id;
      },
      published (new_pub_track client track) track_add ∷ [],
    )

-- The set's key is deleted with its last reader, and a missing key stays missing.
unfoldable pub remove_reader : ℕ → ℕ → List (ℕ × List ℕ) → List (ℕ × List ℕ)
remove_reader client reader m =
    let left = without_reader reader (or_empty (get ℕ_discrete client m)) in
    if length left == 0 then delete ℕ_discrete client m else set ℕ_discrete client left m

-- The subscriber's entry is deleted with its last track.
unfoldable pub remove_subscription :
    ℕ → Subscriber → ℕ → List (ℕ × Subscriber) → List (ℕ × Subscriber)
remove_subscription client s track m =
    let left = delete ℕ_discrete track s.publishers_by_track in
    if length left == 0
    then delete ℕ_discrete client m
    else set ℕ_discrete client (record s { publishers_by_track = left }) m

abbrev pub of_reader : Option ReaderError → Option PubSubError
of_reader none = none
of_reader (some e) = some (reader_error e)

pub record Calls : Type 0 where
  pub adds : Transport → ℕ → Option ℕ
  pub removes : Transport → ℕ → Bool
  pub unsubscribes : ℕ → Bool

module _ (calls : Calls) where
  -- `unsub` from where it looks the subscriber up.
  unfoldable pub leave :
      ℕ
      → ℕ
      → Option ReaderError
      → Option Subscriber
      → PubSub
      → PubSub × List Effect × Option (MultiErr PubSubError)
  leave client track e none p = (p, [], some (sub_not_found ∷ []))
  leave client track e (some s) p = (
    record p { subs_by_sub_client_id = remove_subscription client s track p.subs_by_sub_client_id },
    transport_remove_track s.transport track ∷ [],
    err (
        add_error (if calls.removes s.transport track then none else some remove_track_failed)
          (add_error (of_reader e) [])),
  )

  unfoldable pub unsub :
      ℕ → Publisher → PubSub → PubSub × List Effect × Option (MultiErr PubSubError)
  unsub client publisher p =
      let estimator = remove_client_bitrate client (p.estimators publisher.bitrate_estimator) in
      let (reader, told, e) =
        Reader.unsub (calls.unsubscribes publisher.reader) client (p.readers publisher.reader) in
      let p' : PubSub = record p {
        estimators = write publisher.bitrate_estimator estimator p.estimators;
        readers = write publisher.reader reader p.readers;
      } in
      let (left, effects, errs) =
        leave client (track_of (p.readers publisher.reader)).track_id e
          (get ℕ_discrete client p.subs_by_sub_client_id) p' in
      (left, map (reader_effect publisher.reader) told ++ effects, errs)

  unfoldable pub unsub_all : List ℕ → Publisher → PubSub → PubSub × List Effect
  unsub_all [] publisher p = (p, [])
  unsub_all (client ∷ clients) publisher p =
      let (p1, effects, _) = unsub client publisher p in
      let (p2, more) = unsub_all clients publisher p1 in (p2, effects ++ more)

  unfoldable pub unpub_at : ℕ → ℕ → Option Publisher → PubSub → PubSub × List Effect
  unpub_at client track none p = (p, [])
  unpub_at client track (some publisher) p =
      let (p', effects) = unsub_all (subs_of (p.readers publisher.reader).subs) publisher p in
      (
        record p' {
          publishers_by_pub_client_id =
              remove_reader client publisher.reader p'.publishers_by_pub_client_id;
          publishers = delete ℕ_discrete track p'.publishers;
        },
        effects
            ++ (published (new_pub_track client (track_of (p'.readers publisher.reader)))
                  track_remove
                ∷ []),
      )

  unfoldable pub unpub : ℕ → ℕ → PubSub → PubSub × List Effect
  unpub client track p = unpub_at client track (get ℕ_discrete track p.publishers) p
