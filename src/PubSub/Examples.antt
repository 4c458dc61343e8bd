-- ===== src/PubSub/Examples.antt =====
-- Two clients and one track: client 1 publishes reader 5, whose track is 15, and client 2 subscribes
-- to it.
use native.Mathlib.Decide.{ℕ_discrete}
use peer_calls.Base.{
  ℕ, ◌+◌, ◌≡◌, refl, arith, true, false, none, some, List, [], ◌∷◌, ◌++◌, ◌==◌, if◌then◌else◌,
}
use peer_calls.Base.Dict.{get, set, delete}
use peer_calls.PubSub.Reader.{
  audio, Track, TrackRemote, TrackReader, new_track_reader, pipe_closed, written, WriteResult,
  read_packet, write_loop, after_write,
}
use peer_calls.PubSub.Reader
use peer_calls.PubSub.Broker.{
  Publisher, Transport, PubSub, Calls, new_pub_sub, pub_track, unpub, write, Effect,
}
use peer_calls.PubSub.Requests.{subscribe, sub_at, added, entered, subscribed, terminate}
use peer_calls.PubSub.View.{publisher_of, subscription, listening}
use peer_calls.PubSub.Join.{AnswersOf, subscribe_answers}
use peer_calls.PubSub.Consistent.{IsFresh}
use peer_calls.PubSub.Terminate.{IsSound, Forgets, terminate-Forgets}
use peer_calls.PubSub.Steps.{
  Run, start, next, publishes, joins, ends, passes, pass_packet, maps_agree,
}
use peer_calls.PubSub.Mirror.{Mirrors, see_all}
use peer_calls.PubSub.Announce.{events_show_tracks}
use peer_calls.PubSub.Strays.{dropped_client_stays}
use peer_calls.PubSub.Drop.{writes_of, kept_after, read_packet_lem}
use peer_calls.Base.Keys.{IsMap}
use peer_calls.PubSub.Hub.{Hub, HubInput, event_in, request_in, request_subscribe, hub_run}
use peer_calls.PubSub.Delivery.{IsHub}
use peer_calls.PubSub.Channels.{channel_signals, signals, carried, closed}

abbrev fine : Calls
fine = record { adds = λ tr t. some 7; removes = λ tr t. true; unsubscribes = λ r. true }

abbrev reader_of : ℕ → TrackReader
reader_of r = record {
  closed = false;
  track_remote = record {
    track = record { track_id = r + 10; peer_id = 1; kind = audio };
    ssrc = r;
    rid = 0;
    subscribable = false;
    unsubscribable = true;
  };
  subs = [];
}

abbrev bob : Transport
bob = record { transport_id = 0; client_id = 2 }

abbrev p0 : PubSub
p0 = new_pub_sub reader_of

abbrev p1 : PubSub
p1 = (pub_track 1 5 p0).0

abbrev p2 : PubSub
p2 = (subscribe fine 1 15 bob p1).0

p0-IsFresh : IsFresh 5 p0
unfolding new_pub_sub get
p0-IsFresh = record { unpublished = refl; unheard = λ c. refl }

abbrev first_effects : List Effect
first_effects = ([] ++ (pub_track 1 5 p0).1) ++ (subscribe fine 1 15 bob p1).1

abbrev run2 : Run p0 first_effects p2
run2 = next (next (start p0) (publishes 1 5 p0)) (joins fine 1 15 bob p1)

p1-IsSound : IsSound p1
p1-IsSound = maps_agree reader_of _ p1 (next (start p0) (publishes 1 5 p0)) (tt, p0-IsFresh)

p2-IsSound : IsSound p2
p2-IsSound = maps_agree reader_of _ p2 run2 ((tt, p0-IsFresh), tt)

maps_agree_example : IsSound (terminate fine 1 (pass_packet false (λ l. written) 7 5 p2)).0
maps_agree_example =
    maps_agree reader_of _ (terminate fine 1 (pass_packet false (λ l. written) 7 5 p2)).0
      (next (next run2 (passes false (λ l. written) 7 5 p2))
        (ends fine 1 (pass_packet false (λ l. written) 7 5 p2)))
      ((((tt, p0-IsFresh), tt), λ l. refl), tt)

terminate-Forgets_example : Forgets fine 1 p2 (terminate fine 1 p2).0
terminate-Forgets_example = terminate-Forgets fine 1 p2 p2-IsSound

events_show_tracks_example : Mirrors (see_all first_effects []) p2
events_show_tracks_example =
    events_show_tracks reader_of first_effects p2 run2 ((tt, p0-IsFresh), tt)

subscribe_answers_example : AnswersOf fine bob 1 15 p1 (subscribe fine 1 15 bob p1)
subscribe_answers_example = subscribe_answers fine bob 1 15 p1

abbrev publisher5 : Publisher
publisher5 = record { client_id = 1; reader = 5; bitrate_estimator = 0 }

p1-published : publisher_of p1 15 ≡ some publisher5
unfolding pub_track new_pub_sub get set ℕ_discrete
p1-published = refl

p1-subscribes : (subscribe fine 1 15 bob p1).2 ≡ subscribed 7
unfolding pub_track new_pub_sub get set subscribe sub_at added entered Reader.sub ℕ_discrete
p1-subscribes = refl

-- Client 1 subscribes to its own track.
abbrev alice : Transport
alice = record { transport_id = 1; client_id = 1 }

abbrev dropped : PubSub
dropped = record p2 {
  readers = write 5 (read_packet true (λ l. pipe_closed) 0 (p2.readers 5)).0 p2.readers;
}

dropped-published : publisher_of dropped 15 ≡ some publisher5
unfolding pub_track new_pub_sub get set subscribe sub_at added entered Reader.sub ℕ_discrete
dropped-published = refl

dropped-unheard : listening dropped 5 2 ≡ none
unfolding pub_track new_pub_sub get set delete subscribe sub_at added entered Reader.sub ℕ_discrete
    Reader.unsub read_packet write_loop after_write
dropped-unheard = refl

dropped_client_stays_example :
    (subscription (unpub fine 1 15 dropped).0 2 15 ≡ subscription dropped 2 15)
    × (publisher_of (unpub fine 1 15 dropped).0 15 ≡ none)
dropped_client_stays_example =
    dropped_client_stays fine 2 1 15 publisher5 dropped dropped-published dropped-unheard

-- Client 4 has channel 0; it subscribes again after two events.
abbrev hub4 : Hub
hub4 = record { subs = (4, 0) ∷ []; next_channel = 1 }

hub4-IsHub : IsHub hub4
hub4-IsHub = record { is_map = (tt, tt); once = λ k. ground arith; made = λ k m. ground (arith, m) }

abbrev rounds4 : List (HubInput ℕ)
rounds4 =
    event_in 10
    ∷ request_in 3 request_subscribe
    ∷ event_in 20
    ∷ request_in 4 request_subscribe
    ∷ event_in 30
    ∷ []

channel_signals_example : signals 0 (hub_run rounds4 hub4) ≡ carried 10 ∷ carried 20 ∷ closed ∷ []
channel_signals_example =
    channel_signals 4 0 rounds4 hub4 hub4-IsHub (omega arith) (unfold get ℕ_discrete in refl)

-- Three subscribers, of which the second one's track is closed.
abbrev three_subs : TrackReader
three_subs = record (reader_of 5) { subs = (1, 10) ∷ (2, 20) ∷ (3, 30) ∷ [] }

abbrev second_closed : ℕ → WriteResult
second_closed l = if l == 20 then pipe_closed else written

three_subs-IsMap : IsMap three_subs.subs
three_subs-IsMap = ground arith

read_packet_lem_example :
    (writes_of (read_packet true second_closed 0 three_subs).1 ≡ 10 ∷ 20 ∷ 30 ∷ [])
    × ((c : ℕ)
        → get ℕ_discrete c (read_packet true second_closed 0 three_subs).0.subs
          ≡ kept_after second_closed
              (get ℕ_discrete c three_subs.subs)
              (get ℕ_discrete c three_subs.subs))
read_packet_lem_example = read_packet_lem true second_closed 0 three_subs three_subs-IsMap
