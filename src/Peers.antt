-- ===== src/Peers.antt =====
-- server/sfu/peer_manager.go: the transports of a room, with its published tracks and the channels
-- of the track events. A call that the manager makes of a transport or of the published tracks is an
-- effect; `WriteRTCP` of a transport is a parameter, true where it returns no error. Times are
-- nanoseconds. The goroutines that `Add` and `Sub` start call the operations below.
pub mod Removal
pub mod Pli
mod Examples
use native.Mathlib.Decide.{ℕ_discrete}
use peer_calls.Base.{
  ℕ, ◌+◌, ◌-◌, Bool, true, false, Option, none, some, List, [], ◌∷◌, ◌++◌, map, ltb, ◌==◌,
  if◌then◌else◌, length,
}
use peer_calls.Base.Dict.{get, set, delete}
use peer_calls.MultiErr.{MultiErr}
use peer_calls.Bitrate.{feed}
use peer_calls.PubSub.Broker.{
  Publisher, Transport, PubSub, Effect, PubSubError, Calls, write, pub_track, unpub,
}
use peer_calls.PubSub.Requests.{
  SubResult, subscribed, sub_failed, TrackProps, subscribe, unsubscribe, terminate,
  track_props_by_track_id,
}
use peer_calls.PubSub.Hub.{Hub, request_subscribe, request_unsubscribe, hub_request}

pub record PeerManager : Type 0 where
  pub transports : List (ℕ × Transport)
  pub pli_times : List (ℕ × ℕ)
  pub pubsub : PubSub
  pub hub : Hub
  -- Whether the goroutine of the events has returned.
  pub torn_down : Bool

pub data PeerEffect : Type 0 where
  pubsub_effect : Effect → PeerEffect
  close_transport : Transport → PeerEffect
  close_channel : ℕ → PeerEffect
  write_pli : Transport → ℕ → PeerEffect

pub data PeerError : Type 0 where
  events_closed transport_not_found transport_changed pli_track_not_found write_failed : PeerError
  pubsub_error : PubSubError → PeerError

abbrev pub close_channels : Option ℕ → List PeerEffect
close_channels none = []
close_channels (some k) = close_channel k ∷ []

-- `UnsubscribeFromEvents`, whose error is only logged.
unfoldable pub unsubscribe_from_events : ℕ → PeerManager → PeerManager × List PeerEffect
unsubscribe_from_events client m =
    if m.torn_down
    then (m, [])
    else (let (hub, closed, sub) = hub_request client request_unsubscribe m.hub in
        (record m { hub = hub }, close_channels closed))

module _ (calls : Calls) where
  -- `remove`
  unfoldable pub remove_client : ℕ → PeerManager → PeerManager × List PeerEffect
  remove_client client m =
      let (m1, closes) = unsubscribe_from_events client m in
      let (pubsub, effects) = terminate calls client m1.pubsub in
      (
        record m1 { pubsub = pubsub; transports = delete ℕ_discrete client m1.transports },
        closes ++ map pubsub_effect effects,
      )

  abbrev pub remove_existing : Option Transport → ℕ → PeerManager → PeerManager × List PeerEffect
  remove_existing none client m = (m, [])
  remove_existing (some existing) client m =
      let (m', effects) = remove_client client m in (m', close_transport existing ∷ effects)

  -- `add`, with the channel of the subscription or an error.
  unfoldable pub add_transport : Transport → PeerManager → PeerManager × List PeerEffect × Option ℕ
  add_transport tr m =
      let (m1, effects) =
        remove_existing (get ℕ_discrete tr.client_id m.transports) tr.client_id m in
      let (hub, closed, sub) = hub_request tr.client_id request_subscribe m1.hub in
      if m1.torn_down then (m1, effects, none) else (
        record m1 { hub = hub; transports = set ℕ_discrete tr.client_id tr m1.transports },
        effects ++ close_channels closed,
        sub,
      )

  abbrev pub remove_at :
      Transport → Option Transport → PeerManager → PeerManager × List PeerEffect × Option PeerError
  remove_at tr none m = (m, [], some transport_not_found)
  remove_at tr (some existing) m =
      let (m', effects) = remove_client tr.client_id m in
      if existing.transport_id == tr.transport_id
      then (m', effects, none)
      else (m, [], some transport_changed)

  -- `Remove`
  unfoldable pub remove_transport :
      Transport → PeerManager → PeerManager × List PeerEffect × Option PeerError
  remove_transport tr m = remove_at tr (get ℕ_discrete tr.client_id m.transports) m

  abbrev of_sub : SubResult → Option PeerError
  of_sub (subscribed local) = none
  of_sub (sub_failed e) = some (pubsub_error e)

  abbrev sub_peer_at :
      ℕ → ℕ → Option Transport → PeerManager → PeerManager × List PeerEffect × Option PeerError
  sub_peer_at pub_client track none m = (m, [], some transport_not_found)
  sub_peer_at pub_client track (some tr) m =
      let (pubsub, effects, result) = subscribe calls pub_client track tr m.pubsub in
      (record m { pubsub = pubsub }, map pubsub_effect effects, of_sub result)

  -- `Sub` up to the goroutine that it starts.
  unfoldable pub sub_peer :
      ℕ → ℕ → ℕ → PeerManager → PeerManager × List PeerEffect × Option PeerError
  sub_peer pub_client track client m =
      sub_peer_at pub_client track (get ℕ_discrete client m.transports) m

  -- `Unsub`
  unfoldable pub unsub_peer :
      ℕ → ℕ → ℕ → PeerManager → PeerManager × List PeerEffect × Option (MultiErr PubSubError)
  unsub_peer pub_client track client m =
      let (pubsub, effects, errs) = unsubscribe calls pub_client track client m.pubsub in
      (record m { pubsub = pubsub }, map pubsub_effect effects, errs)

-- `Size`
unfoldable pub size_of : PeerManager → ℕ
size_of m = length m.transports

-- `Close` up to the goroutine that waits: every transport is closed and taken out.
unfoldable pub close_transports : List (ℕ × Transport) → List PeerEffect
close_transports [] = []
close_transports ((client, tr) ∷ ts) = close_transport tr ∷ close_transports ts

unfoldable pub close_peers : PeerManager → PeerManager × List PeerEffect
close_peers m = (record m { transports = [] }, close_transports m.transports)

-- A second.
abbrev pub second : ℕ
second = 1000000000

-- `now.Sub(lastPLITime) < time.Second`. A track without a time has the zero time, which is long ago.
abbrev pub too_soon : ℕ → Option ℕ → Bool
too_soon now none = false
too_soon now (some last) = ltb now (last + second)

-- `feedBitrateEstimate`
unfoldable pub feed_bitrate_estimate : ℕ → ℕ → ℕ → PeerManager → PeerManager
feed_bitrate_estimate track client bitrate m = elim (get ℕ_discrete track m.pubsub.publishers) [
  | none ↦ m
  | some q ↦ record m {
    pubsub = record m.pubsub {
      estimators =
          write q.bitrate_estimator (feed client bitrate (m.pubsub.estimators q.bitrate_estimator))
            m.pubsub.estimators;
    };
  }
]

module _ (writes : Transport → Bool) where
  abbrev pub send_to : ℕ → Bool → Option Transport → List PeerEffect × Option PeerError
  send_to ssrc soon none = ([], some transport_not_found)
  send_to ssrc soon (some tr) =
      if soon
      then ([], none)
      else (write_pli tr ssrc ∷ [], (if writes tr then none else some write_failed))

  -- `forwardPLI` after the lock.
  abbrev pub send_pli :
      Option TrackProps → List (ℕ × Transport) → Bool → List PeerEffect × Option PeerError
  send_pli none ts soon = ([], some pli_track_not_found)
  send_pli (some props) ts soon = send_to props.ssrc soon (get ℕ_discrete props.client_id ts)

  -- `forwardPLI`
  unfoldable pub forward_pli :
      ℕ → ℕ → PeerManager → PeerManager × List PeerEffect × Option PeerError
  forward_pli now track m =
      let soon = too_soon now (get ℕ_discrete track m.pli_times) in
      let m' = if soon then m else record m { pli_times = set ℕ_discrete track now m.pli_times } in
      let (effects, error) = send_pli (track_props_by_track_id track m.pubsub) m.transports soon in
      (m', effects, error)
