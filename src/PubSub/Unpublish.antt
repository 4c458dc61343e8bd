-- ===== src/PubSub/Unpublish.antt =====
-- server/pubsub/pubsub.go: the maps after a client unpublishes one of its tracks.
use peer_calls.Base.{ℕ, ◌≡◌, refl, arith, none, some, ◌==◌, Option-cases, inl, inr}
use peer_calls.Base.Keys.{unless}
use peer_calls.PubSub.Broker.{Publisher, PubSub, Calls, unpub, unpub_at}
use peer_calls.PubSub.View.{subscription, publisher_of, track_id_of}
use peer_calls.PubSub.Withdraw.{
  listening-unpub, subscription-unpub, publisher_of-unpub, owns-unpub, remote-unpub, subs_of-get,
}
use peer_calls.PubSub.Consistent.{IsConsistent}

-- The client that unpublishes a track is the one that published it.
abbrev pub OwnTrack : ℕ → ℕ → PubSub → Type 0
OwnTrack c t p = (q : Publisher) → publisher_of p t ≡ some q → q.client_id ≡ c

module _ (calls : Calls) where
  pub unpub_missing : (c t : ℕ) (p : PubSub) → publisher_of p t ≡ none → (unpub calls c t p).0 ≡ p
  unfolding unpub unpub_at
  unpub_missing c t p e = rw e refl

  module _ (c t : ℕ) (p : PubSub) (h : IsConsistent p) (q : Publisher)
      (e : publisher_of p t ≡ some q) where
    -- All subscriptions of the track go.
    pub subscription-unpub_all :
        (c' t' : ℕ)
        → subscription (unpub calls c t p).0 c' t' ≡ unless (t == t') (subscription p c' t')
    subscription-unpub_all c' t' = elim (Option-cases (subscription p c' t')) [
      | inl s ↦ grind (arith, subscription-unpub calls c t q p e c' t')
      | inr (q', s) ↦ grind (
        arith,
        subscription-unpub calls c t q p e c' t',
        h.placed t q e,
        h.known c' t' q' s,
        subs_of-get c' (p.readers q.reader).subs,
      )
    ]

    same_reader :
        (t' : ℕ) (q' : Publisher) → publisher_of p t' ≡ some q' → q.reader ≡ q'.reader → t ≡ t'
    same_reader t' q' e' i = grind (arith, h.placed t q e, h.placed t' q' e')

    unpub_present : q.client_id ≡ c → IsConsistent (unpub calls c t p).0
    unpub_present own = record {
      placed = λ t' q' s. grind (
        arith,
        publisher_of-unpub calls c t q p e t',
        owns-unpub calls c t q p e q'.client_id q'.reader,
        remote-unpub calls c t q p e q'.reader,
        h.placed t' q',
        same_reader t' q',
      );
      owned = λ c' r' s.
          let (q', e', i, j) = h.owned c' r' (grind (arith, owns-unpub calls c t q p e c' r')) in
          (
            q',
            grind (
              arith,
              publisher_of-unpub calls c t q p e (track_id_of p r'),
              remote-unpub calls c t q p e r',
              owns-unpub calls c t q p e c' r',
            ),
            i,
            j,
          );
      heard = λ t' c' l q' s m. grind (
        arith,
        publisher_of-unpub calls c t q p e t',
        listening-unpub calls c t q p e q'.reader c',
        subscription-unpub_all c' t',
        h.heard t' c' l q',
      );
      known = λ c' t' q' s.
          let (e', l, m) = h.known c' t' q' (grind (arith, subscription-unpub_all c' t')) in
          (
            grind (arith, publisher_of-unpub calls c t q p e t', subscription-unpub_all c' t'),
            l,
            grind (
              arith,
              listening-unpub calls c t q p e q'.reader c',
              subscription-unpub_all c' t',
              same_reader t' q' e',
            ),
          );
    }

  -- Unpublishing a track of one's own, or one that is not published.
  pub unpub-IsConsistent :
      (c t : ℕ) (p : PubSub) → IsConsistent p → OwnTrack c t p → IsConsistent (unpub calls c t p).0
  unpub-IsConsistent c t p h own = elim (Option-cases (publisher_of p t)) [
    | inl e ↦ rw (unpub_missing c t p e) h
    | inr (q, e) ↦ unpub_present c t p h q e (own q e)
  ]
