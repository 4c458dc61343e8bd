-- ===== src/PubSub/Announce.antt =====
-- server/pubsub/pubsub.go: the tracks that a reader of all events knows.
use native.Mathlib.Decide.{ℕ_discrete}
use mathlib.Core.Path.{subst}
use peer_calls.Base.{
  ℕ, ◌≡◌, ◌∙◌, refl, sym, ap, Bool, false, Option, none, some, List, [], ◌∷◌, ◌==◌, Bool-cases,
  Option-cases, inl, inr,
}
use peer_calls.Base.Dict.{get}
use peer_calls.PubSub.Reader.{TrackReader, ReaderEffect, ReaderError, WriteResult}
use peer_calls.PubSub.Drop.{is_closed}
use peer_calls.PubSub.Broker.{
  Publisher, Transport, PubSub, PubTrack, Effect, Calls, new_pub_sub, unpub, unsub, or_empty,
}
use peer_calls.PubSub.Requests.{
  SubResult, sub_failed, subscribed, tracks_of_subscriber, entered, added, sub_at, subscribe,
  unsub_at, unsubscribe, unpub_readers, unsub_publishers, terminate,
}
use peer_calls.PubSub.View.{publisher_of, track_id_of, unsub_frame}
use peer_calls.PubSub.Join.{Answers, subscribe_answers}
use peer_calls.PubSub.Terminate.{IsSound, OwnReaders, own_readers, unpub_own}
use peer_calls.PubSub.Mirror.{
  see, see_all, see_all-append, see_reader_effects, show_publisher, show_publisher_same, Mirrors,
  see_all-unsub, unpub-Mirrors, pub_track-Mirrors,
}
use peer_calls.PubSub.Steps.{
  Step, publishes, withdraws, joins, parts, ends, passes, stops, IsOrderly, AllOrderly, pass_packet,
  pass_packet_same, Run, start, next, end_reader, new-IsSound, Run-IsSound, end_reader_same,
}

-- Calls that send nothing and leave the publishers and the remote tracks as they are.
record IsQuiet (es : List Effect) (p p' : PubSub) : Type 0 where
  silent : (m : List (ℕ × PubTrack)) → see_all es m ≡ m
  publishers_same : p'.publishers ≡ p.publishers
  remotes_same : (r : ℕ) → (p'.readers r).track_remote ≡ (p.readers r).track_remote

IsQuiet-Mirrors :
    (es : List Effect) (p p' : PubSub) (m : List (ℕ × PubTrack))
    → IsQuiet es p p'
    → Mirrors m p
    → Mirrors (see_all es m) p'
IsQuiet-Mirrors es p p' m q k t =
    ap (get ℕ_discrete t) (q.silent m)
    ∙ k t
    ∙ ap (λ ps. show_publisher p.readers (get ℕ_discrete t ps)) (sym q.publishers_same)
    ∙ sym (show_publisher_same p.readers p'.readers (publisher_of p' t) q.remotes_same)

unsub-IsQuiet :
    (calls : Calls) (c : ℕ) (q : Publisher) (p : PubSub)
    → IsQuiet (unsub calls c q p).1 p (unsub calls c q p).0
unsub-IsQuiet calls c q p =
    let (ps, os, rs) = unsub_frame calls c q p in
    record { silent = see_all-unsub calls c q p; publishers_same = ps; remotes_same = rs }

module _ (calls : Calls) (c : ℕ) where
  unpub_readers-Mirrors :
      (rs : List ℕ) (p : PubSub) (m : List (ℕ × PubTrack))
      → IsSound p
      → OwnReaders calls c p rs
      → Mirrors m p
      → Mirrors (see_all (unpub_readers calls c rs p).1 m) (unpub_readers calls c rs p).0
  unfolding unpub_readers see_all
  unpub_readers-Mirrors [] p m h own k = k
  unpub_readers-Mirrors (r ∷ rs) p m h own k =
      let (h1, w, own1) = unpub_own calls c r rs p h own in
      let first = unpub calls c (track_id_of p r) p in
      rw (see_all-append first.1 (unpub_readers calls c rs first.0).1 m) (
        unpub_readers-Mirrors rs first.0 (see_all first.1 m) h1 own1
          (unpub-Mirrors calls c (track_id_of p r) p m h.0 k))

  unsub_publishers-Mirrors :
      (ps : List (ℕ × Publisher)) (p : PubSub) (m : List (ℕ × PubTrack))
      → Mirrors m p
      → Mirrors (see_all (unsub_publishers calls c ps p).1 m) (unsub_publishers calls c ps p).0
  unfolding unsub_publishers see_all
  unsub_publishers-Mirrors [] p m k = k
  unsub_publishers-Mirrors ((t, q) ∷ ps) p m k =
      let first = unsub calls c q p in
      rw (see_all-append first.1 (unsub_publishers calls c ps first.0).1 m) (
        unsub_publishers-Mirrors ps first.0 (see_all first.1 m)
          (IsQuiet-Mirrors first.1 p first.0 m (unsub-IsQuiet calls c q p) k))

  terminate-Mirrors :
      (p : PubSub) (m : List (ℕ × PubTrack))
      → IsSound p
      → Mirrors m p
      → Mirrors (see_all (terminate calls c p).1 m) (terminate calls c p).0
  unfolding terminate
  terminate-Mirrors p m h k =
      let rs = or_empty (get ℕ_discrete c p.publishers_by_pub_client_id) in
      let first = unpub_readers calls c rs p in
      let ps = tracks_of_subscriber (get ℕ_discrete c first.0.subs_by_sub_client_id) in
      rw (see_all-append first.1 (unsub_publishers calls c ps first.0).1 m) (
        unsub_publishers-Mirrors ps first.0 (see_all first.1 m)
          (unpub_readers-Mirrors rs p m h (own_readers calls c p h.0) k))

  unsubscribe-Mirrors :
      (t c' : ℕ) (p : PubSub) (m : List (ℕ × PubTrack))
      → Mirrors m p
      → Mirrors (see_all (unsubscribe calls c t c' p).1 m) (unsubscribe calls c t c' p).0
  unfolding unsubscribe unsub_at
  unsubscribe-Mirrors t c' p m k = elim (Option-cases (publisher_of p t)) [
    | inl e ↦ rw e (unfold see_all in k)
    | inr (q, e) ↦ rw e (IsQuiet-Mirrors _ p _ m (unsub-IsQuiet calls c' q p) k)
  ]

  entered-silent :
      (q : Publisher) (tr : Transport) (local : ℕ)
      (x : TrackReader × List ReaderEffect × Option ReaderError) (p : PubSub)
      (m : List (ℕ × PubTrack))
      → see_all (entered calls q tr local x p).1 m ≡ m
  unfolding entered see_all see
  entered-silent q tr local (reader, told, some e) p m = refl
  entered-silent q tr local (reader, told, none) p m = see_reader_effects q.reader told m

  subscribe-silent :
      (t : ℕ) (tr : Transport) (p : PubSub) (m : List (ℕ × PubTrack))
      → see_all (subscribe calls c t tr p).1 m ≡ m
  unfolding subscribe sub_at added see_all see
  subscribe-silent t tr p m = elim (Bool-cases (c == tr.client_id)) [
    | inl own ↦ rw own refl
    | inr other ↦ rw other (elim (Option-cases (publisher_of p t)) [
      | inl e ↦ rw e refl
      | inr (q, e) ↦ rw e (elim (Option-cases (calls.adds tr (track_id_of p q.reader))) [
        | inl a ↦ rw a refl
        | inr (local, a) ↦ rw a (entered-silent q tr local _ p m)
      ])
    ])
  ]

  subscribe-IsQuiet :
      (t : ℕ) (tr : Transport) (p : PubSub)
      → IsQuiet (subscribe calls c t tr p).1 p (subscribe calls c t tr p).0
  unfolding Answers
  subscribe-IsQuiet t tr p = go (subscribe calls c t tr p).2 (subscribe_answers calls tr c t p)
    where
      go :
          (r : SubResult)
          → Answers calls tr c t p (subscribe calls c t tr p).0 (subscribe calls c t tr p).1 r
          → IsQuiet (subscribe calls c t tr p).1 p (subscribe calls c t tr p).0
      go (sub_failed e) (same, why) = record {
        silent = subscribe-silent t tr p;
        publishers_same = ap (λ (p : PubSub). p.publishers) same;
        remotes_same = λ r. ap (λ (p : PubSub). (p.readers r).track_remote) same;
      }
      go (subscribed l) (q, n, e, a, j) = record {
        silent = subscribe-silent t tr p;
        publishers_same = j.publishes;
        remotes_same = j.remotes;
      }

end_reader-Mirrors :
    (r : ℕ) (p : PubSub) (m : List (ℕ × PubTrack)) → Mirrors m p → Mirrors m (end_reader r p)
unfolding end_reader
end_reader-Mirrors r p m k t =
    k t
    ∙ sym (
        show_publisher_same p.readers (end_reader r p).readers (publisher_of p t)
          (λ r'. (end_reader_same r p r').1))

pass_packet-Mirrors :
    (u : Bool) (writes : ℕ → WriteResult) (packet r : ℕ) (p : PubSub) (m : List (ℕ × PubTrack))
    → ((l : ℕ) → is_closed (writes l) ≡ false)
    → Mirrors m p
    → Mirrors m (pass_packet u writes packet r p)
unfolding pass_packet
pass_packet-Mirrors u writes packet r p m h k t =
    k t
    ∙ sym (
        show_publisher_same p.readers (pass_packet u writes packet r p).readers (publisher_of p t)
          (λ r'. (pass_packet_same u writes packet r p h r').1))

Step-Mirrors :
    (p p' : PubSub) (es : List Effect) (m : List (ℕ × PubTrack)) (step : Step p es p')
    → IsOrderly step
    → IsSound p
    → Mirrors m p
    → Mirrors (see_all es m) p'
Step-Mirrors p p' es m (publishes c r _) o s k = pub_track-Mirrors c r p m k
Step-Mirrors p p' es m (withdraws calls c t _) o s k = unpub-Mirrors calls c t p m s.0 k
Step-Mirrors p p' es m (joins calls c t tr _) o s k =
    IsQuiet-Mirrors _ p _ m (subscribe-IsQuiet calls c t tr p) k
Step-Mirrors p p' es m (parts calls c t c' _) o s k = unsubscribe-Mirrors calls c t c' p m k
Step-Mirrors p p' es m (ends calls c _) o s k = terminate-Mirrors calls c p m s k
Step-Mirrors p p' es m (passes u writes packet r _) o s k =
    unfold see_all in pass_packet-Mirrors u writes packet r p m o k
Step-Mirrors p p' es m (stops r _) o s k = unfold see_all in end_reader-Mirrors r p m k

Run-Mirrors :
    {p p' : PubSub} {es : List Effect} (m : List (ℕ × PubTrack)) (run : Run p es p')
    → AllOrderly run
    → IsSound p
    → Mirrors m p
    → Mirrors (see_all es m) p'
Run-Mirrors m (start _) o s k = unfold see_all in k
Run-Mirrors {p' = p''} m (next {p' = p'} {done = done} {more = more} run step) (o, last) s k =
    subst (λ ms. Mirrors ms p'') (sym (see_all-append done more m))
      (Step-Mirrors p' p'' more (see_all done m) step last (Run-IsSound run o s)
        (Run-Mirrors m run o s k))

-- In a run in which each client publishes only tracks that are not published, with readers that
-- nobody hears, and withdraws only tracks of its own, and in which no packet finds a subscriber's
-- local track closed: a reader of all the events since the start, which adds a track at each
-- `TrackEventTypeAdd` and removes it at each `TrackEventTypeRemove`, knows at the end the tracks
-- that are published, each with the client that published it, and no others.
pub events_show_tracks :
    (readers : ℕ → TrackReader) (es : List Effect) (p : PubSub)
    → (run : Run (new_pub_sub readers) es p) → AllOrderly run
    → Mirrors (see_all es []) p
events_show_tracks readers es p run o =
    Run-Mirrors [] run o (new-IsSound readers) (λ t. unfold new_pub_sub get in refl)
