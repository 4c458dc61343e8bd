-- ===== src/PubSub/View.antt =====
-- server/pubsub/pubsub.go: what the maps say of one client and one track, and what `unsub` does to
-- it.
use native.Mathlib.Decide.{ℕ_discrete}
use peer_calls.Base.{
  ℕ, ◌≡◌, ◌∙◌, refl, ap, arith, Bool, true, false, ◌&&◌, Option, none, some, List, [], ◌∷◌, ◌==◌,
  if◌then◌else◌, Option-cases, inl, inr,
}
use peer_calls.Base.Dict.{get, delete}
use peer_calls.Base.Keys.{unless, get-set_if, get-delete_if, get-empty}
use peer_calls.PubSub.Reader.{TrackReader, TrackRemote, ReaderError, track_of, subs_of}
use peer_calls.PubSub.Reader
use peer_calls.PubSub.Broker.{
  Publisher, Subscriber, PubSub, Calls, unsub, leave, remove_subscription, or_empty, has_reader,
}
use peer_calls.PubSub.Requests.{tracks_of_subscriber}

-- The local track to which a reader copies its packets for a client.
abbrev pub listening : PubSub → ℕ → ℕ → Option ℕ
listening p reader client = get ℕ_discrete client (p.readers reader).subs

-- What a client is subscribed to under a track.
abbrev pub subscription : PubSub → ℕ → ℕ → Option Publisher
subscription p client track =
    get ℕ_discrete track (tracks_of_subscriber (get ℕ_discrete client p.subs_by_sub_client_id))

abbrev pub publisher_of : PubSub → ℕ → Option Publisher
publisher_of p track = get ℕ_discrete track p.publishers

-- Whether a client has published a reader.
abbrev pub owns : PubSub → ℕ → ℕ → Bool
owns p client reader =
    has_reader reader (or_empty (get ℕ_discrete client p.publishers_by_pub_client_id))

abbrev pub track_id_of : PubSub → ℕ → ℕ
track_id_of p reader = (track_of (p.readers reader)).track_id

abbrev pub is_in : ℕ → List ℕ → Bool
is_in c [] = false
is_in c (i ∷ is) = if i == c then true else is_in c is

pub reader_unsub-get :
    (b : Bool) (c c' : ℕ) (t : TrackReader)
    → get ℕ_discrete c' (Reader.unsub b c t).0.subs ≡ unless (c == c') (get ℕ_discrete c' t.subs)
unfolding Reader.unsub
reader_unsub-get b c c' t = elim (Option-cases (get ℕ_discrete c t.subs)) [
  | inl e ↦ rw e (ground (arith, e))
  | inr (l, e) ↦ rw e (get-delete_if c c' t.subs)
]

reader_unsub-remote :
    (b : Bool) (c : ℕ) (t : TrackReader) → (Reader.unsub b c t).0.track_remote ≡ t.track_remote
unfolding Reader.unsub
reader_unsub-remote b c t = elim (Option-cases (get ℕ_discrete c t.subs)) [
  | inl e ↦ rw e refl
  | inr (l, e) ↦ rw e refl
]

-- The lookups after `remove_subscription`.
remove_subscription-get :
    (c c' t t' : ℕ) (s : Subscriber) (m : List (ℕ × Subscriber))
    → get ℕ_discrete c m ≡ some s
    → get ℕ_discrete t' (tracks_of_subscriber (get ℕ_discrete c' (remove_subscription c s t m)))
      ≡ unless (c == c' && t == t') (get ℕ_discrete t' (tracks_of_subscriber (get ℕ_discrete c' m)))
unfolding remove_subscription
remove_subscription-get c c' t t' s m e = grind (
  arith,
  get-delete_if c c' m,
  get-set_if c c' (record s { publishers_by_track = delete ℕ_discrete t s.publishers_by_track }) m,
  get-delete_if t t' s.publishers_by_track,
  get-empty t' (delete ℕ_discrete t s.publishers_by_track),
)

leave_frame :
    (calls : Calls) (c t : ℕ) (e : Option ReaderError) (o : Option Subscriber) (p : PubSub)
    → let p' = (leave calls c t e o p).0 in
      (p'.readers ≡ p.readers)
      × (p'.publishers ≡ p.publishers)
      × (p'.publishers_by_pub_client_id ≡ p.publishers_by_pub_client_id)
unfolding leave
leave_frame calls c t e none p = (refl, refl, refl)
leave_frame calls c t e (some s) p = (refl, refl, refl)

missing_subscription :
    (c c' t t' : ℕ) (p : PubSub)
    → get ℕ_discrete c p.subs_by_sub_client_id ≡ none
    → subscription p c' t' ≡ unless (c == c' && t == t') (subscription p c' t')
unfolding get
missing_subscription c c' t t' p h = grind arith

leave-subscription :
    (calls : Calls) (c c' t t' : ℕ) (e : Option ReaderError) (o : Option Subscriber) (p : PubSub)
    → get ℕ_discrete c p.subs_by_sub_client_id ≡ o
    → subscription (leave calls c t e o p).0 c' t'
      ≡ unless (c == c' && t == t') (subscription p c' t')
unfolding leave
leave-subscription calls c c' t t' e none p h = missing_subscription c c' t t' p h
leave-subscription calls c c' t t' e (some s) p h =
    remove_subscription-get c c' t t' s p.subs_by_sub_client_id h

module _ (calls : Calls) (c : ℕ) (q : Publisher) (p : PubSub) where
  pub listening-unsub :
      (r c' : ℕ)
      → listening (unsub calls c q p).0 r c' ≡ unless (q.reader == r && c == c') (listening p r c')
  unfolding unsub
  listening-unsub r c' =
      ap (λ (f : ℕ → TrackReader). get ℕ_discrete c' (f r).subs)
        (leave_frame calls c (track_id_of p q.reader)
          (Reader.unsub (calls.unsubscribes q.reader) c (p.readers q.reader)).2
          (get ℕ_discrete c p.subs_by_sub_client_id) _).0
      ∙ grind (arith, reader_unsub-get (calls.unsubscribes q.reader) c c' (p.readers q.reader))

  pub subscription-unsub :
      (c' t : ℕ)
      → subscription (unsub calls c q p).0 c' t
        ≡ unless (c == c' && track_id_of p q.reader == t) (subscription p c' t)
  unfolding unsub
  subscription-unsub c' t = leave-subscription calls c c' (track_id_of p q.reader) t _ _ _ refl

  pub unsub_frame :
      let p' = (unsub calls c q p).0 in
      (p'.publishers ≡ p.publishers)
      × (p'.publishers_by_pub_client_id ≡ p.publishers_by_pub_client_id)
      × ((r : ℕ) → (p'.readers r).track_remote ≡ (p.readers r).track_remote)
  unfolding unsub
  unsub_frame =
      let (rs, ps, os) =
        leave_frame calls c (track_id_of p q.reader)
          (Reader.unsub (calls.unsubscribes q.reader) c (p.readers q.reader)).2
          (get ℕ_discrete c p.subs_by_sub_client_id) _ in
      (
        ps,
        os,
        λ r.
            ap (λ (f : ℕ → TrackReader). (f r).track_remote) rs
            ∙ grind
                (arith, reader_unsub-remote (calls.unsubscribes q.reader) c (p.readers q.reader)),
      )
