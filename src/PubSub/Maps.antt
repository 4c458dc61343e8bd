-- ===== src/PubSub/Maps.antt =====
-- server/pubsub/pubsub.go: a subscriber has each track once, as a Go map has.
use native.Mathlib.Decide.{ℕ_discrete}
use mathlib.Core.Path.{subst}
use peer_calls.Base.{
  ℕ, ◌≡◌, refl, Option, none, some, List, [], ◌∷◌, ◌==◌, length, Bool-cases, Option-cases, inl, inr,
}
use peer_calls.Base.Dict.{get, set, delete}
use peer_calls.Base.Keys.{get-set_if, get-delete_if, IsMap, IsMap-delete, IsMap-set}
use peer_calls.PubSub.Reader.{TrackReader, ReaderEffect, ReaderError}
use peer_calls.PubSub.Broker.{
  Publisher, Subscriber, Transport, PubSub, Calls, unsub, unsub_all, leave, remove_subscription,
  unpub, unpub_at,
}
use peer_calls.PubSub.Requests.{
  tracks_of_subscriber, subscriber_or_new, subscribe, sub_at, added, entered,
}
use peer_calls.PubSub.View.{publisher_of, track_id_of}

-- Every subscriber has each of its tracks once.
abbrev pub HasMaps : List (ℕ × Subscriber) → Type 0
HasMaps m = (c : ℕ) → IsMap (tracks_of_subscriber (get ℕ_discrete c m))

HasMaps-set :
    (c : ℕ) (s : Subscriber) (m : List (ℕ × Subscriber))
    → IsMap s.publishers_by_track
    → HasMaps m
    → HasMaps (set ℕ_discrete c s m)
HasMaps-set c s m k h c' =
    rw (get-set_if c c' s m) (elim (Bool-cases (c == c')) [ inl e ↦ rw e k | inr e ↦ rw e (h c') ])

remove_subscription-HasMaps :
    (c t : ℕ) (s : Subscriber) (m : List (ℕ × Subscriber))
    → IsMap s.publishers_by_track
    → HasMaps m
    → HasMaps (remove_subscription c s t m)
unfolding remove_subscription
remove_subscription-HasMaps c t s m k h =
    elim (Bool-cases (length (delete ℕ_discrete t s.publishers_by_track) == 0)) [
      | inl e ↦ rw e (λ c'.
          rw (get-delete_if c c' m)
            (elim (Bool-cases (c == c')) [ inl i ↦ rw i tt | inr i ↦ rw i (h c') ]))
      | inr e ↦ rw e (
          HasMaps-set c
            (record s { publishers_by_track = delete ℕ_discrete t s.publishers_by_track }) m
            (IsMap-delete t s.publishers_by_track k) h)
    ]

module _ (calls : Calls) where
  leave-HasMaps :
      (c t : ℕ) (e : Option ReaderError) (o : Option Subscriber) (p : PubSub)
      → get ℕ_discrete c p.subs_by_sub_client_id ≡ o
      → HasMaps p.subs_by_sub_client_id
      → HasMaps (leave calls c t e o p).0.subs_by_sub_client_id
  unfolding leave
  leave-HasMaps c t e none p i h = h
  leave-HasMaps c t e (some s) p i h =
      remove_subscription-HasMaps c t s p.subs_by_sub_client_id
        (subst (λ o. IsMap (tracks_of_subscriber o)) i (h c)) h

  pub unsub-HasMaps :
      (c : ℕ) (q : Publisher) (p : PubSub)
      → HasMaps p.subs_by_sub_client_id
      → HasMaps (unsub calls c q p).0.subs_by_sub_client_id
  unfolding unsub
  unsub-HasMaps c q p h = leave-HasMaps c _ _ _ _ refl h

  unsub_all-HasMaps :
      (cs : List ℕ) (q : Publisher) (p : PubSub)
      → HasMaps p.subs_by_sub_client_id
      → HasMaps (unsub_all calls cs q p).0.subs_by_sub_client_id
  unfolding unsub_all
  unsub_all-HasMaps [] q p h = h
  unsub_all-HasMaps (c ∷ cs) q p h =
      unsub_all-HasMaps cs q (unsub calls c q p).0 (unsub-HasMaps c q p h)

  pub unpub-HasMaps :
      (c t : ℕ) (p : PubSub)
      → HasMaps p.subs_by_sub_client_id
      → HasMaps (unpub calls c t p).0.subs_by_sub_client_id
  unfolding unpub unpub_at
  unpub-HasMaps c t p h = elim (Option-cases (publisher_of p t)) [
    | inl e ↦ rw e h
    | inr (q, e) ↦ rw e (unsub_all-HasMaps _ q p h)
  ]

  entered-HasMaps :
      (q : Publisher) (tr : Transport) (local : ℕ)
      (x : TrackReader × List ReaderEffect × Option ReaderError) (p : PubSub)
      → HasMaps p.subs_by_sub_client_id
      → HasMaps (entered calls q tr local x p).0.subs_by_sub_client_id
  unfolding entered
  entered-HasMaps q tr local (reader, told, some e) p h = h
  entered-HasMaps q tr local (reader, told, none) p h =
      HasMaps-set tr.client_id _ _ (IsMap-set (track_id_of p q.reader) q _ new_or_old) h
    where
      new_or_old :
          IsMap
            (subscriber_or_new tr
              (get ℕ_discrete tr.client_id p.subs_by_sub_client_id)).publishers_by_track
      new_or_old = elim (Option-cases (get ℕ_discrete tr.client_id p.subs_by_sub_client_id)) [
        | inl e ↦ rw e tt
        | inr (s, e) ↦ rw e (subst (λ o. IsMap (tracks_of_subscriber o)) e (h tr.client_id))
      ]

  pub subscribe-HasMaps :
      (pub_client t : ℕ) (tr : Transport) (p : PubSub)
      → HasMaps p.subs_by_sub_client_id
      → HasMaps (subscribe calls pub_client t tr p).0.subs_by_sub_client_id
  unfolding subscribe sub_at added
  subscribe-HasMaps pub_client t tr p h = elim (Bool-cases (pub_client == tr.client_id)) [
    | inl own ↦ rw own h
    | inr other ↦ rw other (elim (Option-cases (publisher_of p t)) [
      | inl e ↦ rw e h
      | inr (q, e) ↦ rw e (elim (Option-cases (calls.adds tr (track_id_of p q.reader))) [
        | inl a ↦ rw a h
        | inr (local, a) ↦ rw a (entered-HasMaps q tr local _ p h)
      ])
    ])
  ]
