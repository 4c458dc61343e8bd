-- ===== src/PubSub/Terminate.antt =====
-- server/pubsub/pubsub.go: what is left of a client after `Terminate`.
use native.Mathlib.Decide.{ℕ_discrete}
use peer_calls.Base.{
  ℕ, ◌≡◌, ◌≢◌, ◌∙◌, refl, arith, true, false, none, some, List, [], ◌∷◌, All, All-map, Bool-cases,
  Option-cases, inl, inr,
}
use peer_calls.Base.Dict.{get}
use peer_calls.Base.Keys.{entries-get, All-get}
use peer_calls.PubSub.Broker.{Publisher, PubSub, Calls, unsub, unpub, or_empty, has_reader}
use peer_calls.PubSub.Requests.{tracks_of_subscriber, unpub_readers, unsub_publishers, terminate}
use peer_calls.PubSub.View.{
  subscription, publisher_of, owns, track_id_of, subscription-unsub, unsub_frame,
}
use peer_calls.PubSub.Withdraw.{publisher_of-unpub, owns-unpub, remote-unpub}
use peer_calls.PubSub.Maps.{HasMaps, unpub-HasMaps, unsub-HasMaps}
use peer_calls.PubSub.Consistent.{IsConsistent, unsub-IsConsistent}
use peer_calls.PubSub.Unpublish.{
  OwnTrack, unpub-IsConsistent, unpub_missing, subscription-unpub_all,
}

-- The maps agree with each other, and a subscriber has each track once.
abbrev pub IsSound : PubSub → Type 0
IsSound p = IsConsistent p × HasMaps p.subs_by_sub_client_id

module _ (calls : Calls) (c : ℕ) where
  -- What unpublishing tracks of one's own leaves as it was.
  pub record Withdraws (p p' : PubSub) : Type 0 where
    pub publishers_less :
        (t : ℕ) (q : Publisher) → publisher_of p' t ≡ some q → publisher_of p t ≡ some q
    pub owns_less : (r : ℕ) → owns p' c r ≡ true → owns p c r ≡ true
    pub remotes : (r : ℕ) → (p'.readers r).track_remote ≡ (p.readers r).track_remote
    pub others :
        (t : ℕ) (q : Publisher)
        → publisher_of p t ≡ some q
        → q.client_id ≢ c
        → (publisher_of p' t ≡ some q) × ((c' : ℕ) → subscription p' c' t ≡ subscription p c' t)

  Withdraws-refl : (p : PubSub) → Withdraws p p
  Withdraws-refl p = record {
    publishers_less = λ t q s. s;
    owns_less = λ r s. s;
    remotes = λ r. refl;
    others = λ t q s n. (s, λ c'. refl);
  }

  unpub-Withdraws :
      (t : ℕ) (p : PubSub) → IsConsistent p → OwnTrack c t p → Withdraws p (unpub calls c t p).0
  unpub-Withdraws t p h own = elim (Option-cases (publisher_of p t)) [
    | inl e ↦ rw (unpub_missing calls c t p e) (Withdraws-refl p)
    | inr (q, e) ↦ record {
      publishers_less = λ t' q' s. grind (arith, publisher_of-unpub calls c t q p e t');
      owns_less = λ r s. grind (arith, owns-unpub calls c t q p e c r);
      remotes = remote-unpub calls c t q p e;
      others = λ t' q' s n. (
        grind (arith, publisher_of-unpub calls c t q p e t', own q e),
        λ c'. grind (arith, subscription-unpub_all calls c t p h q e c' t', own q e),
      );
    }
  ]

  Withdraws-trans : (p1 p2 p3 : PubSub) → Withdraws p1 p2 → Withdraws p2 p3 → Withdraws p1 p3
  Withdraws-trans p1 p2 p3 f g = record {
    publishers_less = λ t q s. f.publishers_less t q (g.publishers_less t q s);
    owns_less = λ r s. f.owns_less r (g.owns_less r s);
    remotes = λ r. g.remotes r ∙ f.remotes r;
    others = λ t q s n.
        let (e, m) = f.others t q s n in
        let (e', m') = g.others t q e n in (e', λ c'. m' c' ∙ m c');
  }

  -- The client's own tracks among the readers.
  abbrev pub OwnReaders : PubSub → List ℕ → Type 0
  OwnReaders p rs = (r : ℕ) → has_reader r rs ≡ true → OwnTrack c (track_id_of p r) p

  unpub_gone :
      (r : ℕ) (p : PubSub) → IsConsistent p → owns (unpub calls c (track_id_of p r) p).0 c r ≡ false
  unpub_gone r p h = elim (Bool-cases (owns p c r)) [
    | inl e ↦
        let (q, s, i, j) = h.owned c r e in
        grind (arith, owns-unpub calls c (track_id_of p r) q p s c r)
    | inr e ↦ elim (Option-cases (publisher_of p (track_id_of p r))) [
      | inl s ↦ grind (arith, unpub_missing calls c (track_id_of p r) p s)
      | inr (q, s) ↦ grind (arith, owns-unpub calls c (track_id_of p r) q p s c r)
    ]
  ]

  -- One round of the loop over the client's readers.
  pub unpub_own :
      (r : ℕ) (rs : List ℕ) (p : PubSub)
      → IsSound p
      → OwnReaders p (r ∷ rs)
      → let p1 = (unpub calls c (track_id_of p r) p).0 in
        IsSound p1 × Withdraws p p1 × OwnReaders p1 rs
  unpub_own r rs p (h, m) own =
      let t = track_id_of p r in
      let w = unpub-Withdraws t p h (own r (grind arith)) in
      (
        (unpub-IsConsistent calls c t p h (own r (grind arith)), unpub-HasMaps calls c t p m),
        w,
        λ r' i q e.
            own r' (grind (arith, i)) q
              (w.publishers_less (track_id_of p r') q (grind (arith, e, w.remotes r'))),
      )

  unpub_readers_lem :
      (rs : List ℕ) (p : PubSub)
      → IsSound p
      → OwnReaders p rs
      → let p' = (unpub_readers calls c rs p).0 in
        IsSound p' × Withdraws p p' × ((r : ℕ) → has_reader r rs ≡ true → owns p' c r ≡ false)
  unfolding unpub_readers
  unpub_readers_lem [] p h own = (h, Withdraws-refl p, λ r e. cc e)
  unpub_readers_lem (r ∷ rs) p h own =
      let p1 = (unpub calls c (track_id_of p r) p).0 in
      let (h1, w, own1) = unpub_own r rs p h own in
      let (s, w', gone) = unpub_readers_lem rs p1 h1 own1 in
      (
        s,
        Withdraws-trans p p1 (unpub_readers calls c rs p1).0 w w',
        λ r' i. grind (arith, i, gone r', w'.owns_less r', unpub_gone r p h.0),
      )

  -- What leaving tracks leaves as it was.
  record Leaves (p p' : PubSub) : Type 0 where
    publishers_same : p'.publishers ≡ p.publishers
    own_less : (t : ℕ) (q : Publisher) → subscription p' c t ≡ some q → subscription p c t ≡ some q
    others_same : (c' t : ℕ) → c' ≢ c → subscription p' c' t ≡ subscription p c' t

  unsub_publishers_lem :
      (m : List (ℕ × Publisher)) (p : PubSub)
      → IsSound p
      → All (λ e. publisher_of p e.0 ≡ some e.1) m
      → let p' = (unsub_publishers calls c m p).0 in
        IsSound p' × Leaves p p' × All (λ e. subscription p' c e.0 ≡ none) m
  unfolding unsub_publishers
  unsub_publishers_lem [] p s e = (
    s,
    record { publishers_same = refl; own_less = λ t q s. s; others_same = λ c' t n. refl },
    tt,
  )
  unsub_publishers_lem ((t, q) ∷ m) p (h, k) (e, es) =
      let p1 = (unsub calls c q p).0 in
      let (ps, os, rs) = unsub_frame calls c q p in
      let (s, l, gone) =
        unsub_publishers_lem m p1
          (unsub-IsConsistent calls c t q p h e, unsub-HasMaps calls c q p k) (rw ps es) in
      (
        s,
        record {
          publishers_same = l.publishers_same ∙ ps;
          own_less =
              λ t' q' i. grind (arith, l.own_less t' q', subscription-unsub calls c q p c t');
          others_same =
              λ c' t' n. grind (arith, l.others_same c' t', subscription-unsub calls c q p c' t');
        },
        (
          elim (Option-cases (subscription (unsub_publishers calls c m p1).0 c t)) [
            | inl none_left ↦ none_left
            | inr (q', i) ↦
                grind
                  (arith, i, l.own_less t q', subscription-unsub calls c q p c t, h.placed t q e)
          ],
          gone,
        ),
      )

  pub own_readers :
      (p : PubSub)
      → IsConsistent p
      → OwnReaders p (or_empty (get ℕ_discrete c p.publishers_by_pub_client_id))
  own_readers p h r e q s = let (q', s', i, j) = h.owned c r e in grind arith

  -- Nothing is published by the client, and it is subscribed to nothing. The tracks of the others
  -- and their subscriptions to each other are as they were, and the maps agree with each other.
  pub record Forgets (p p' : PubSub) : Type 0 where
    pub sound : IsSound p'
    pub no_track : (t : ℕ) (q : Publisher) → publisher_of p' t ≡ some q → q.client_id ≢ c
    pub no_subscription : (t : ℕ) → subscription p' c t ≡ none
    pub others_stay :
        (t : ℕ) (q : Publisher)
        → publisher_of p t ≡ some q
        → q.client_id ≢ c
        → (publisher_of p' t ≡ some q)
          × ((c' : ℕ) → c' ≢ c → subscription p' c' t ≡ subscription p c' t)

  -- After `Terminate` of a client whose maps agree, nothing is published by it and it is subscribed
  -- to nothing; the tracks of all others stay published, their subscriptions to each other stay,
  -- and the maps still agree.
  pub terminate-Forgets : (p : PubSub) → IsSound p → Forgets p (terminate calls c p).0
  unfolding terminate
  terminate-Forgets p (h, k) =
      let rs = or_empty (get ℕ_discrete c p.publishers_by_pub_client_id) in
      let p1 = (unpub_readers calls c rs p).0 in
      let ((h1, k1), w, gone) = unpub_readers_lem rs p (h, k) (own_readers p h) in
      let m = tracks_of_subscriber (get ℕ_discrete c p1.subs_by_sub_client_id) in
      let p2 = (unsub_publishers calls c m p1).0 in
      let (s, l, left) =
        unsub_publishers_lem m p1 (h1, k1)
          (All-map (λ e i. (h1.known c e.0 e.1 i).0) m (entries-get m (k1 c))) in
      record {
        sound = s;
        no_track = λ t q e n.
            grind (arith, l.publishers_same, h1.placed t q, w.owns_less q.reader, gone q.reader);
        no_subscription = λ t. elim (Option-cases (subscription p2 c t)) [
          | inl e ↦ e
          | inr (q, e) ↦ All-get (λ t. subscription p2 c t ≡ none) m t left (l.own_less t q e)
        ];
        others_stay = λ t q e n.
            let (e', i) = w.others t q e n in
            (grind (arith, l.publishers_same), λ c' d. l.others_same c' t d ∙ i c');
      }
