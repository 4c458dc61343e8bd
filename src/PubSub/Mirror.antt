-- ===== src/PubSub/Mirror.antt =====
-- server/pubsub/pubsub.go: what is sent on `eventsChan`, against what is published.
use native.Mathlib.Decide.{ℕ_discrete}
use peer_calls.Base.{
  ℕ, ◌≡◌, ◌∙◌, refl, sym, ap, arith, Bool, true, false, Option, none, some, List, [], ◌∷◌, ◌++◌,
  ◌==◌, map, Option-cases, inl, inr,
}
use peer_calls.Base.Dict.{get, set, delete}
use peer_calls.Base.Keys.{unless, get-set_if, get-delete_if}
use peer_calls.PubSub.Reader.{
  TrackReader, TrackRemote, ReaderEffect, ReaderError, track_of, subs_of,
}
use peer_calls.PubSub.Reader
use peer_calls.PubSub.Broker.{
  Publisher, Subscriber, PubSub, PubTrack, track_add, track_remove, track_sub, track_unsub, Effect,
  published, transport_add_track, transport_remove_track, reader_effect, new_pub_track, Calls,
  pub_track, unpub, unpub_at, unsub, unsub_all, leave,
}
use peer_calls.PubSub.View.{publisher_of, track_id_of}
use peer_calls.PubSub.Consistent.{IsConsistent, publisher_of-pub}
use peer_calls.PubSub.Withdraw.{publisher_of-unpub, remote-unpub, unsub_all_frame}

-- A reader of the events that keeps a map of the tracks.
unfoldable pub see : Effect → List (ℕ × PubTrack) → List (ℕ × PubTrack)
see (published t track_add) m = set ℕ_discrete t.track_id t m
see (published t track_remove) m = delete ℕ_discrete t.track_id m
see (published t track_sub) m = m
see (published t track_unsub) m = m
see (transport_add_track tr t) m = m
see (transport_remove_track tr t) m = m
see (reader_effect r e) m = m

unfoldable pub see_all : List Effect → List (ℕ × PubTrack) → List (ℕ × PubTrack)
see_all [] m = m
see_all (e ∷ es) m = see_all es (see e m)

abbrev pub show_publisher : (ℕ → TrackReader) → Option Publisher → Option PubTrack
show_publisher readers none = none
show_publisher readers (some q) = some (new_pub_track q.client_id (track_of (readers q.reader)))

-- What is published under a track, as an event shows it.
abbrev pub shown : PubSub → ℕ → Option PubTrack
shown p t = show_publisher p.readers (publisher_of p t)

-- The map shows the tracks that are published and no others.
abbrev pub Mirrors : List (ℕ × PubTrack) → PubSub → Type 0
Mirrors m p = (t : ℕ) → get ℕ_discrete t m ≡ shown p t

pub see_all-append :
    (es fs : List Effect) (m : List (ℕ × PubTrack))
    → see_all (es ++ fs) m ≡ see_all fs (see_all es m)
unfolding see_all
see_all-append [] fs m = refl
see_all-append (e ∷ es) fs m = see_all-append es fs (see e m)

pub see_reader_effects :
    (r : ℕ) (es : List ReaderEffect) (m : List (ℕ × PubTrack))
    → see_all (map (reader_effect r) es) m ≡ m
unfolding see_all see
see_reader_effects r [] m = refl
see_reader_effects r (e ∷ es) m = see_reader_effects r es m

pub show_publisher_same :
    (readers readers' : ℕ → TrackReader) (o : Option Publisher)
    → ((r : ℕ) → (readers' r).track_remote ≡ (readers r).track_remote)
    → show_publisher readers' o ≡ show_publisher readers o
show_publisher_same readers readers' none k = refl
show_publisher_same readers readers' (some q) k = rw (k q.reader) refl

show_unless :
    (readers : ℕ → TrackReader) (b : Bool) (o : Option Publisher)
    → show_publisher readers (unless b o) ≡ unless b (show_publisher readers o)
show_unless readers true o = refl
show_unless readers false o = refl

module _ (calls : Calls) where
  see_all-leave :
      (c t : ℕ) (e : Option ReaderError) (o : Option Subscriber) (p : PubSub)
      (m : List (ℕ × PubTrack))
      → see_all (leave calls c t e o p).1 m ≡ m
  unfolding leave see_all see
  see_all-leave c t e none p m = refl
  see_all-leave c t e (some s) p m = refl

  -- Leaving a track sends nothing.
  pub see_all-unsub :
      (c : ℕ) (q : Publisher) (p : PubSub) (m : List (ℕ × PubTrack))
      → see_all (unsub calls c q p).1 m ≡ m
  unfolding unsub
  see_all-unsub c q p m =
      see_all-append
        (map (reader_effect q.reader)
          (Reader.unsub (calls.unsubscribes q.reader) c (p.readers q.reader)).1)
        _ m
      ∙ ap (see_all _) (see_reader_effects q.reader _ m)
      ∙ see_all-leave c (track_id_of p q.reader) _ _ _ m

  pub see_all-unsub_all :
      (cs : List ℕ) (q : Publisher) (p : PubSub) (m : List (ℕ × PubTrack))
      → see_all (unsub_all calls cs q p).1 m ≡ m
  unfolding unsub_all see_all
  see_all-unsub_all [] q p m = refl
  see_all-unsub_all (c ∷ cs) q p m =
      see_all-append (unsub calls c q p).1 (unsub_all calls cs q (unsub calls c q p).0).1 m
      ∙ ap (see_all (unsub_all calls cs q (unsub calls c q p).0).1) (see_all-unsub c q p m)
      ∙ see_all-unsub_all cs q (unsub calls c q p).0 m

  see_unpub :
      (c t : ℕ) (q : Publisher) (p : PubSub) (m : List (ℕ × PubTrack))
      → IsConsistent p
      → publisher_of p t ≡ some q
      → (t' : ℕ)
      → get ℕ_discrete t' (see_all (unpub calls c t p).1 m) ≡ unless (t == t') (get ℕ_discrete t' m)
  unfolding unpub unpub_at
  see_unpub c t q p m h e t' =
      let cs = subs_of (p.readers q.reader).subs in
      let p' = (unsub_all calls cs q p).0 in
      let same : track_id_of p' q.reader ≡ t =
        ap (λ (m : TrackRemote). m.track.track_id) ((unsub_all_frame calls q cs p).2 q.reader)
        ∙ (h.placed t q e).0 in
      rw e (
        rw (see_all-append (unsub_all calls cs q p).1 _ m) (
          rw (see_all-unsub_all cs q p m) (
            unfold see_all see new_pub_track in
            get-delete_if (track_id_of p' q.reader) t' m
            ∙ ap (λ i. unless (i == t') (get ℕ_discrete t' m)) same)))

  pub unpub-Mirrors :
      (c t : ℕ) (p : PubSub) (m : List (ℕ × PubTrack))
      → IsConsistent p
      → Mirrors m p
      → Mirrors (see_all (unpub calls c t p).1 m) (unpub calls c t p).0
  unfolding unpub unpub_at
  unpub-Mirrors c t p m h k t' = elim (Option-cases (publisher_of p t)) [
    | inl e ↦ rw e (unfold see_all in k t')
    | inr (q, e) ↦
        see_unpub c t q p m h e t'
        ∙ ap (unless (t == t')) (k t')
        ∙ sym (show_unless p.readers (t == t') (publisher_of p t'))
        ∙ ap (show_publisher p.readers) (sym (publisher_of-unpub calls c t q p e t'))
        ∙ sym (
            show_publisher_same p.readers (unpub calls c t p).0.readers
              (publisher_of (unpub calls c t p).0 t') (remote-unpub calls c t q p e))
  ]

pub pub_track-Mirrors :
    (c r : ℕ) (p : PubSub) (m : List (ℕ × PubTrack))
    → Mirrors m p
    → Mirrors (see_all (pub_track c r p).1 m) (pub_track c r p).0
unfolding pub_track see_all see new_pub_track
pub_track-Mirrors c r p m k t = grind (
  arith,
  k t,
  get-set_if (track_id_of p r) t (new_pub_track c (track_of (p.readers r))) m,
  publisher_of-pub c r p t,
)
