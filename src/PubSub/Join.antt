-- ===== src/PubSub/Join.antt =====
-- server/pubsub/pubsub.go: what `Sub` does to what the maps say.
use native.Mathlib.Decide.{ℕ_discrete}
use peer_calls.Base.{
  ℕ, ◌≡◌, ◌≢◌, refl, arith, false, ◌&&◌, Option, none, some, List, [], ◌∷◌, ◌==◌, if◌then◌else◌,
  Bool-cases, Option-cases, inl, inr,
}
use peer_calls.Base.Dict.{get, set}
use peer_calls.Base.Keys.{get-set_if}
use peer_calls.PubSub.Reader.{TrackReader, TrackRemote, ReaderError, ReaderEffect, track_of}
use peer_calls.PubSub.Reader
use peer_calls.PubSub.Broker.{
  Publisher, Transport, PubSub, PubSubError, subscribe_to_own_track, track_not_found,
  add_track_failed, reader_error, Calls, Effect, transport_add_track, transport_remove_track,
  sub_not_found, remove_track_failed,
}
use peer_calls.PubSub.Requests.{
  subscriber_or_new, add_publisher, tracks_of_subscriber, entered, added, sub_at, subscribe,
  SubResult, subscribed, sub_failed,
}
use peer_calls.PubSub.View.{listening, subscription, publisher_of, track_id_of}

-- A client joins the listeners of a publisher's reader, and nothing else changes.
pub record Joins (q : Publisher) (local client : ℕ) (p p' : PubSub) : Type 0 where
  pub was_open : (p.readers q.reader).closed ≡ false
  pub was_out : listening p q.reader client ≡ none
  pub listens :
      (r c : ℕ)
      → listening p' r c ≡ (if q.reader == r && client == c then some local else listening p r c)
  pub subscribes :
      (c t : ℕ)
      → subscription p' c t
        ≡ (if client == c && track_id_of p q.reader == t then some q else subscription p c t)
  pub publishes : p'.publishers ≡ p.publishers
  pub owners : p'.publishers_by_pub_client_id ≡ p.publishers_by_pub_client_id
  pub remotes : (r : ℕ) → (p'.readers r).track_remote ≡ (p.readers r).track_remote

reader_sub-none :
    (c l : ℕ) (t : TrackReader)
    → (Reader.sub c l t).2 ≡ none
    → (t.closed ≡ false)
      × (get ℕ_discrete c t.subs ≡ none)
      × ((Reader.sub c l t).0.subs ≡ set ℕ_discrete c l t.subs)
      × ((Reader.sub c l t).0.track_remote ≡ t.track_remote)
unfolding Reader.sub
reader_sub-none c l t h = elim (Option-cases (get ℕ_discrete c t.subs)) [
  | inl e ↦ ground arith
  | inr (old, e) ↦ ground arith
]

added_tracks :
    (c t client track : ℕ) (q : Publisher) (tr : Transport) (p : PubSub)
    → get ℕ_discrete t (
        tracks_of_subscriber (
          get ℕ_discrete c (
            set ℕ_discrete client
              (add_publisher track q
                (subscriber_or_new tr (get ℕ_discrete client p.subs_by_sub_client_id)))
              p.subs_by_sub_client_id)))
      ≡ (if client == c && track == t then some q else subscription p c t)
unfolding get
added_tracks c t client track q tr p =
    elim (Option-cases (get ℕ_discrete client p.subs_by_sub_client_id)) [
      | inl e ↦ rw e (
          grind (
            arith,
            get-set_if client c (add_publisher track q (subscriber_or_new tr none))
                p.subs_by_sub_client_id,
            get-set_if track t q [],
          ))
      | inr (s, e) ↦ rw e (
          grind (
            arith,
            get-set_if client c (add_publisher track q s) p.subs_by_sub_client_id,
            get-set_if track t q s.publishers_by_track,
          ))
    ]

module _ (calls : Calls) (tr : Transport) where
  entered-Joins :
      (q : Publisher) (local : ℕ) (p : PubSub)
      → (Reader.sub tr.client_id local (p.readers q.reader)).2 ≡ none
      → Joins q local tr.client_id p
          (entered calls q tr local
            (
              (Reader.sub tr.client_id local (p.readers q.reader)).0,
              (Reader.sub tr.client_id local (p.readers q.reader)).1,
              none,
            )
            p).0
  unfolding entered
  entered-Joins q local p h =
      let (o, n, s, k) = reader_sub-none tr.client_id local (p.readers q.reader) h in
      record {
        was_open = o;
        was_out = n;
        listens = λ r c. grind (arith, get-set_if tr.client_id c local (p.readers q.reader).subs);
        subscribes = λ c t. added_tracks c t tr.client_id (track_id_of p q.reader) q tr p;
        publishes = refl;
        owners = refl;
        remotes = λ r. grind arith;
      }

  -- Why a subscription is refused, and what the transport was asked until then.
  unfoldable pub Refuses : ℕ → ℕ → PubSub → List Effect → PubSubError → Type 0
  Refuses pub_client track p effects subscribe_to_own_track =
      (pub_client ≡ tr.client_id) × (effects ≡ [])
  Refuses pub_client track p effects track_not_found =
      (publisher_of p track ≡ none) × (effects ≡ [])
  Refuses pub_client track p effects add_track_failed =
      (q : Publisher) × (publisher_of p track ≡ some q)
      × (calls.adds tr (track_id_of p q.reader) ≡ none)
      × (effects ≡ transport_add_track tr (track_id_of p q.reader) ∷ [])
  Refuses pub_client track p effects (reader_error e) =
      (q : Publisher) × (local : ℕ) × (publisher_of p track ≡ some q)
      × (calls.adds tr (track_id_of p q.reader) ≡ some local)
      × ((Reader.sub tr.client_id local (p.readers q.reader)).2 ≡ some e)
      × (effects
          ≡ transport_add_track tr (track_id_of p q.reader)
            ∷ transport_remove_track tr (track_id_of p q.reader)
            ∷ [])
  Refuses pub_client track p effects sub_not_found = ⊥
  Refuses pub_client track p effects remove_track_failed = ⊥

  -- A subscription is refused, and the state is the one before, or the client joins the listeners.
  unfoldable pub Answers : ℕ → ℕ → PubSub → PubSub → List Effect → SubResult → Type 0
  Answers pub_client track p p' effects (sub_failed e) =
      (p' ≡ p) × Refuses pub_client track p effects e
  Answers pub_client track p p' effects (subscribed local) =
      (q : Publisher) × (pub_client ≢ tr.client_id)
      × (publisher_of p track ≡ some q)
      × (calls.adds tr (track_id_of p q.reader) ≡ some local)
      × Joins q local tr.client_id p p'

  module _ (pub_client track : ℕ) (p : PubSub) where
    abbrev pub AnswersOf : PubSub × List Effect × SubResult → Type 0
    AnswersOf (p', effects, result) = Answers pub_client track p p' effects result

    module _ (q : Publisher) (local : ℕ) (n : pub_client ≢ tr.client_id)
        (e : publisher_of p track ≡ some q)
        (a : calls.adds tr (track_id_of p q.reader) ≡ some local) where
      abbrev AddAnswers : PubSub × List Effect × SubResult → Type 0
      AddAnswers (p', effects, result) =
          Answers pub_client track p p' (transport_add_track tr (track_id_of p q.reader) ∷ effects)
            result

      entered-Answers :
          (o : Option ReaderError)
          → (Reader.sub tr.client_id local (p.readers q.reader)).2 ≡ o
          → AddAnswers (
              entered calls q tr local
                (
                  (Reader.sub tr.client_id local (p.readers q.reader)).0,
                  (Reader.sub tr.client_id local (p.readers q.reader)).1,
                  o,
                )
                p)
      unfolding entered Answers Refuses
      entered-Answers (some err) h = (refl, (q, local, e, a, h, refl))
      entered-Answers none h = (q, n, e, a, unfold entered in entered-Joins q local p h)

    -- A subscription joins the listeners only if the publisher's client is given as another one, the
    -- track is published, the transport adds it and the reader takes the client; otherwise it
    -- changes nothing and says which of these failed. What a transport had added it is asked to
    -- remove when the reader refuses.
    pub subscribe_answers : AnswersOf (subscribe calls pub_client track tr p)
    unfolding subscribe sub_at added
    subscribe_answers = elim (Bool-cases (pub_client == tr.client_id)) [
      | inl own ↦ rw own (unfold Answers Refuses in (refl, (ground arith, refl)))
      | inr other ↦ rw other (elim (Option-cases (publisher_of p track)) [
        | inl e ↦ rw e (unfold Answers Refuses in (refl, (e, refl)))
        | inr (q, e) ↦ rw e (elim (Option-cases (calls.adds tr (track_id_of p q.reader))) [
          | inl a ↦ rw a (unfold Answers Refuses in (refl, (q, e, a, refl)))
          | inr (local, a) ↦ rw a (entered-Answers q local (ground arith) e a _ refl)
        ])
      ])
    ]
