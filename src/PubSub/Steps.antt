-- ===== src/PubSub/Steps.antt =====
-- server/pubsub/pubsub.go: what happens to the published tracks, one call after the other.
use peer_calls.Base.{ℕ, ◌≡◌, ◌∙◌, refl, Bool, false, List, [], ◌∷◌, ◌++◌, arith}
use mathlib.Core.Path.{subst}
use peer_calls.Base.Dict.{get}
use peer_calls.Base.{sym, Option-cases, inl, inr}
use peer_calls.PubSub.Reader.{
  TrackReader, end_read_loop, WriteResult, written, pipe_closed, other_failure, after_write,
  write_loop, read_packet,
}
use peer_calls.PubSub.Drop.{is_closed}
use peer_calls.PubSub.Broker.{
  Transport, PubSub, Calls, Effect, write, new_pub_sub, pub_track, unpub,
}
use peer_calls.PubSub.Requests.{
  SubResult, subscribed, sub_failed, subscribe, unsubscribe, unsub_at, terminate,
}
use peer_calls.PubSub.View.{publisher_of}
use peer_calls.PubSub.Join.{Answers, subscribe_answers}
use peer_calls.PubSub.Consistent.{
  IsConsistent, IsFresh, pub_track-IsConsistent, unsub-IsConsistent, Joins-IsConsistent,
}
use peer_calls.PubSub.Unpublish.{OwnTrack, unpub-IsConsistent}
use peer_calls.PubSub.Maps.{unsub-HasMaps, unpub-HasMaps, subscribe-HasMaps}
use peer_calls.PubSub.Terminate.{terminate-Forgets, IsSound}

-- The read loop of a reader ends.
unfoldable pub end_reader : ℕ → PubSub → PubSub
end_reader r p = record p { readers = write r (end_read_loop (p.readers r)).0 p.readers }

-- A reader's read loop passes one packet on, and drops the clients whose local tracks are closed.
unfoldable pub pass_packet : Bool → (ℕ → WriteResult) → ℕ → ℕ → PubSub → PubSub
pass_packet u writes packet r p = record p {
  readers = write r (read_packet u writes packet (p.readers r)).0 p.readers;
}

-- A client publishes a reader, withdraws a track, subscribes, unsubscribes or is terminated; or a
-- reader passes a packet on, or comes to its end.
pub data Step : PubSub → List Effect → PubSub → Type 0 where
  publishes : (c r : ℕ) (p : PubSub) → Step p (pub_track c r p).1 (pub_track c r p).0
  withdraws :
      (calls : Calls) (c t : ℕ) (p : PubSub) → Step p (unpub calls c t p).1 (unpub calls c t p).0
  joins :
      (calls : Calls) (c t : ℕ) (tr : Transport) (p : PubSub)
      → Step p (subscribe calls c t tr p).1 (subscribe calls c t tr p).0
  parts :
      (calls : Calls) (c t c' : ℕ) (p : PubSub)
      → Step p (unsubscribe calls c t c' p).1 (unsubscribe calls c t c' p).0
  ends :
      (calls : Calls) (c : ℕ) (p : PubSub) → Step p (terminate calls c p).1 (terminate calls c p).0
  passes :
      (u : Bool) (writes : ℕ → WriteResult) (packet r : ℕ) (p : PubSub)
      → Step p [] (pass_packet u writes packet r p)
  stops : (r : ℕ) (p : PubSub) → Step p [] (end_reader r p)

-- What the code does not check: a client publishes a track that is not published, with a reader that
-- nobody hears; it withdraws its own tracks; and no packet finds a local track closed.
abbrev pub IsOrderly : {p p' : PubSub} {es : List Effect} → Step p es p' → Type 0
IsOrderly (publishes c r p) = IsFresh r p
IsOrderly (withdraws calls c t p) = OwnTrack c t p
IsOrderly (joins calls c t tr p) = Unit
IsOrderly (parts calls c t c' p) = Unit
IsOrderly (ends calls c p) = Unit
IsOrderly (passes u writes packet r p) = (l : ℕ) → is_closed (writes l) ≡ false
IsOrderly (stops r p) = Unit

pub data Run : PubSub → List Effect → PubSub → Type 0 where
  start : (p : PubSub) → Run p [] p
  next :
      {p p' p'' : PubSub} {done more : List Effect}
      → Run p done p'
      → Step p' more p''
      → Run p (done ++ more) p''

-- Every step of the run is orderly.
abbrev pub AllOrderly : {p p' : PubSub} {es : List Effect} → Run p es p' → Type 0
AllOrderly (start p) = Unit
AllOrderly (next run step) = AllOrderly run × IsOrderly step

unsubscribe-IsSound :
    (calls : Calls) (c t c' : ℕ) (p : PubSub) → IsSound p → IsSound (unsubscribe calls c t c' p).0
unfolding unsubscribe unsub_at
unsubscribe-IsSound calls c t c' p (h, k) = elim (Option-cases (publisher_of p t)) [
  | inl e ↦ rw e (h, k)
  | inr (q, e) ↦ rw e (unsub-IsConsistent calls c' t q p h e, unsub-HasMaps calls c' q p k)
]

subscribe-IsSound :
    (calls : Calls) (c t : ℕ) (tr : Transport) (p : PubSub)
    → IsSound p
    → IsSound (subscribe calls c t tr p).0
unfolding Answers
subscribe-IsSound calls c t tr p (h, k) = (
  go (subscribe calls c t tr p).2 (subscribe_answers calls tr c t p),
  subscribe-HasMaps calls c t tr p k,
)
  where
    go :
        (r : SubResult)
        → Answers calls tr c t p (subscribe calls c t tr p).0 (subscribe calls c t tr p).1 r
        → IsConsistent (subscribe calls c t tr p).0
    go (sub_failed e) (same, why) = subst IsConsistent (sym same) h
    go (subscribed l) (q, n, e, a, j) = Joins-IsConsistent q t l tr.client_id p _ h e j

pub end_reader_same :
    (r : ℕ) (p : PubSub) (r' : ℕ)
    → (((end_reader r p).readers r').subs ≡ (p.readers r').subs)
      × (((end_reader r p).readers r').track_remote ≡ (p.readers r').track_remote)
unfolding end_reader end_read_loop
end_reader_same r p r' = ground arith

-- Readers with the same subscribers and tracks.
abbrev SameReaders : (ℕ → TrackReader) → (ℕ → TrackReader) → Type 0
SameReaders f g = (r : ℕ) → ((f r).subs ≡ (g r).subs) × ((f r).track_remote ≡ (g r).track_remote)

SameReaders-IsSound :
    (f : ℕ → TrackReader) (p : PubSub)
    → SameReaders f p.readers
    → IsSound p
    → IsSound (record p { readers = f })
SameReaders-IsSound f p same (h, k) = (
  record {
    placed = λ t q e. grind (arith, h.placed t q, same q.reader);
    owned = λ c r' e. grind (arith, h.owned c r' e, same r');
    heard = λ t c l q e m. grind (arith, h.heard t c l q, same q.reader);
    known = λ c t q e. grind (arith, h.known c t q e, same q.reader);
  },
  k,
)

end_reader-IsSound : (r : ℕ) (p : PubSub) → IsSound p → IsSound (end_reader r p)
unfolding end_reader
end_reader-IsSound r p s =
    SameReaders-IsSound _ p (λ r'. unfold end_reader in end_reader_same r p r') s

after_write_same :
    (u : Bool) (c : ℕ) (r : WriteResult) (t : TrackReader)
    → is_closed r ≡ false
    → (after_write u c r t).0 ≡ t
unfolding after_write
after_write_same u c written t e = refl
after_write_same u c other_failure t e = refl
after_write_same u c pipe_closed t e = cc e

write_loop_same :
    (u : Bool) (writes : ℕ → WriteResult) (packet : ℕ) (m : List (ℕ × ℕ)) (t : TrackReader)
    → ((l : ℕ) → is_closed (writes l) ≡ false)
    → (write_loop u writes packet m t).0 ≡ t
unfolding write_loop
write_loop_same u writes packet [] t h = refl
write_loop_same u writes packet ((c, l) ∷ m) t h =
    write_loop_same u writes packet m (after_write u c (writes l) t).0 h
    ∙ after_write_same u c (writes l) t (h l)

pub pass_packet_same :
    (u : Bool) (writes : ℕ → WriteResult) (packet r : ℕ) (p : PubSub)
    → ((l : ℕ) → is_closed (writes l) ≡ false)
    → (r' : ℕ)
    → (((pass_packet u writes packet r p).readers r').subs ≡ (p.readers r').subs)
      × (((pass_packet u writes packet r p).readers r').track_remote ≡ (p.readers r').track_remote)
unfolding pass_packet read_packet
pass_packet_same u writes packet r p h r' =
    ground (arith, write_loop_same u writes packet (p.readers r).subs (p.readers r) h)

pass_packet-IsSound :
    (u : Bool) (writes : ℕ → WriteResult) (packet r : ℕ) (p : PubSub)
    → ((l : ℕ) → is_closed (writes l) ≡ false)
    → IsSound p
    → IsSound (pass_packet u writes packet r p)
unfolding pass_packet
pass_packet-IsSound u writes packet r p h s =
    SameReaders-IsSound _ p (λ r'. unfold pass_packet in pass_packet_same u writes packet r p h r')
      s

pub Step-IsSound :
    (p p' : PubSub) (es : List Effect) (step : Step p es p')
    → IsOrderly step
    → IsSound p
    → IsSound p'
Step-IsSound p p' es (publishes c r _) f (h, k) =
    (pub_track-IsConsistent c r p h f, unfold pub_track in k)
Step-IsSound p p' es (withdraws calls c t _) own (h, k) =
    (unpub-IsConsistent calls c t p h own, unpub-HasMaps calls c t p k)
Step-IsSound p p' es (joins calls c t tr _) o s = subscribe-IsSound calls c t tr p s
Step-IsSound p p' es (parts calls c t c' _) o s = unsubscribe-IsSound calls c t c' p s
Step-IsSound p p' es (ends calls c _) o s = (terminate-Forgets calls c p s).sound
Step-IsSound p p' es (passes u writes packet r _) o s = pass_packet-IsSound u writes packet r p o s
Step-IsSound p p' es (stops r _) o s = end_reader-IsSound r p s

pub new-IsSound : (readers : ℕ → TrackReader) → IsSound (new_pub_sub readers)
unfolding new_pub_sub get
new-IsSound readers = (
  record {
    placed = λ t q e. cc e;
    owned = λ c r e. cc e;
    heard = λ t c l q e m. cc e;
    known = λ c t q e. cc e;
  },
  λ c. tt,
)

pub Run-IsSound :
    {p p' : PubSub} {es : List Effect} (run : Run p es p') → AllOrderly run → IsSound p → IsSound p'
Run-IsSound (start _) o s = s
Run-IsSound (next run step) (o, last) s = Step-IsSound _ _ _ step last (Run-IsSound run o s)

-- In a run in which each client publishes only tracks that are not published, with readers that
-- nobody hears, and withdraws only tracks of its own, and in which no packet finds a subscriber's
-- local track closed, whatever is published, withdrawn, subscribed to, left, terminated and passed
-- on, in whatever order: the publishers, the readers of each client, the listeners of each reader
-- and the subscriptions of each client agree with each other.
pub maps_agree :
    (readers : ℕ → TrackReader) (es : List Effect) (p : PubSub)
    → (run : Run (new_pub_sub readers) es p) → AllOrderly run
    → IsSound p
maps_agree readers es p run o = Run-IsSound run o (new-IsSound readers)
