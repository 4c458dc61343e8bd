-- ===== src/PubSub/Strays.antt =====
-- server/pubsub/pubsub.go: subscriptions that come back to where they were, and those that stray.
use native.Mathlib.Decide.{ℕ_discrete}
use mathlib.Core.Path.{subst}
use peer_calls.Base.{
  ℕ, ◌≡◌, ◌≢◌, refl, arith, false, none, some, List, [], ◌∷◌, Option-cases, inl, inr,
}
use peer_calls.Base.Dict.{get}
use peer_calls.PubSub.Reader.{subs_of}
use peer_calls.PubSub.Broker.{Publisher, Transport, PubSub, Calls, unsub, unpub}
use peer_calls.PubSub.Requests.{subscribe, subscribed}
use peer_calls.PubSub.View.{
  listening, subscription, publisher_of, is_in, listening-unsub, subscription-unsub,
}
use peer_calls.PubSub.Join.{Joins, Answers, subscribe_answers}
use peer_calls.PubSub.Withdraw.{subscription-unpub, publisher_of-unpub}
use peer_calls.PubSub.Consistent.{IsConsistent}

-- Nobody listens to or is subscribed to anything else than before.
abbrev pub SameSubscriptions : PubSub → PubSub → Type 0
SameSubscriptions p p' =
    ((r c : ℕ) → listening p' r c ≡ listening p r c)
    × ((c t : ℕ) → subscription p' c t ≡ subscription p c t)

get-subs_of : (c : ℕ) (m : List (ℕ × ℕ)) → get ℕ_discrete c m ≡ none → is_in c (subs_of m) ≡ false
unfolding subs_of get
get-subs_of c [] h = refl
get-subs_of c ((i, l) ∷ m) h = grind (arith, get-subs_of c m)

module _ (calls : Calls) where
  Joins-undo :
      (c t l : ℕ) (q : Publisher) (p p' : PubSub)
      → IsConsistent p
      → publisher_of p t ≡ some q
      → Joins q l c p p'
      → SameSubscriptions p (unsub calls c q p').0
  Joins-undo c t l q p p' h e j = (
    λ r c'. grind (arith, listening-unsub calls c q p' r c', j.listens r c', j.was_out),
    λ c' t'. elim (Option-cases (subscription p c' t')) [
      | inl s ↦
          grind (
            arith,
            s,
            subscription-unsub calls c q p' c' t',
            j.subscribes c' t',
            j.remotes q.reader,
          )
      | inr (q', s) ↦ grind (
        arith,
        s,
        subscription-unsub calls c q p' c' t',
        j.subscribes c' t',
        j.remotes q.reader,
        h.known c' t' q' s,
        h.placed t q e,
        j.was_out,
      )
    ],
  )

  -- A subscription that succeeds and is then left, in a state whose maps agree, leaves all listeners
  -- and all subscriptions as they were.
  pub unsub-subscribe :
      (pub_client t l : ℕ) (tr : Transport) (q : Publisher) (p : PubSub)
      → IsConsistent p
      → publisher_of p t ≡ some q
      → (subscribe calls pub_client t tr p).2 ≡ subscribed l
      → SameSubscriptions p (unsub calls tr.client_id q (subscribe calls pub_client t tr p).0).0
  unfolding Answers
  unsub-subscribe pub_client t l tr q p h e s =
      let (q', n, e', a, j) : Answers calls tr pub_client t p (subscribe calls pub_client t tr p).0
          (subscribe calls pub_client t tr p).1 (subscribed l) =
        subst (Answers calls tr pub_client t p _ _) s (subscribe_answers calls tr pub_client t p) in
      subst
        (λ x.
          SameSubscriptions p (unsub calls tr.client_id x (subscribe calls pub_client t tr p).0).0)
        (cc (e, e')) (Joins-undo tr.client_id t l q' p (subscribe calls pub_client t tr p).0 h e' j)

  -- A client that gives any other client as the publisher gets the same answer, and the same
  -- state, whoever has published the track: it subscribes to its own track too.
  pub publisher_not_checked :
      (c1 c2 t : ℕ) (tr : Transport) (p : PubSub)
      → c1 ≢ tr.client_id
      → c2 ≢ tr.client_id
      → subscribe calls c1 t tr p ≡ subscribe calls c2 t tr p
  unfolding subscribe
  publisher_not_checked c1 c2 t tr p n1 n2 = ground arith

  -- A client that a reader has dropped after a write to a closed pipe keeps its subscription when
  -- the track is unpublished, although the track is published no more.
  pub dropped_client_stays :
      (c c' t : ℕ) (q : Publisher) (p : PubSub)
      → publisher_of p t ≡ some q
      → listening p q.reader c ≡ none
      → (subscription (unpub calls c' t p).0 c t ≡ subscription p c t)
        × (publisher_of (unpub calls c' t p).0 t ≡ none)
  dropped_client_stays c c' t q p e d = (
    grind (arith, subscription-unpub calls c' t q p e c t, get-subs_of c (p.readers q.reader).subs),
    grind (arith, publisher_of-unpub calls c' t q p e t),
  )
