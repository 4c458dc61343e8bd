-- ===== src/PubSub/Withdraw.antt =====
-- server/pubsub/pubsub.go: what `Unpub` does to what the maps say.
use native.Mathlib.Decide.{ℕ_discrete}
use peer_calls.Base.{
  ℕ, ◌≡◌, ◌∙◌, refl, ap, arith, false, ◌&&◌, none, some, List, [], ◌∷◌, ◌==◌, length, if◌then◌else◌,
}
use peer_calls.Base.Dict.{get, set}
use peer_calls.Base.Keys.{unless, get-set_if, get-delete_if}
use peer_calls.PubSub.Reader.{TrackRemote, subs_of}
use peer_calls.PubSub.Broker.{
  Publisher, PubSub, Calls, unsub, unsub_all, unpub, unpub_at, remove_reader, or_empty, has_reader,
  without_reader,
}
use peer_calls.PubSub.View.{
  listening, subscription, publisher_of, owns, track_id_of, is_in, listening-unsub,
  subscription-unsub, unsub_frame,
}

-- A client is in the list of the map's clients where the map has it.
pub subs_of-get :
    (c : ℕ) (m : List (ℕ × ℕ)) → is_in c (subs_of m) ≡ false → get ℕ_discrete c m ≡ none
unfolding subs_of get
subs_of-get c [] h = refl
subs_of-get c ((i, l) ∷ m) h = grind (arith, subs_of-get c m)

has_reader-without :
    (r r' : ℕ) (set : List ℕ)
    → has_reader r' (without_reader r set) ≡ (if r == r' then false else has_reader r' set)
has_reader-without r r' [] = ground arith
has_reader-without r r' (i ∷ set) = grind (arith, has_reader-without r r' set)

has_reader-empty : (r : ℕ) (set : List ℕ) → length set ≡ 0 → has_reader r set ≡ false
has_reader-empty r [] e = refl
has_reader-empty r (i ∷ set) e = absurd (omega (arith, e))

remove_reader-get :
    (c c' r r' : ℕ) (m : List (ℕ × List ℕ))
    → has_reader r' (or_empty (get ℕ_discrete c' (remove_reader c r m)))
      ≡ (if c == c' && r == r' then false else has_reader r' (or_empty (get ℕ_discrete c' m)))
unfolding remove_reader
remove_reader-get c c' r r' m = grind (
  arith,
  get-delete_if c c' m,
  get-set_if c c' (without_reader r (or_empty (get ℕ_discrete c m))) m,
  has_reader-without r r' (or_empty (get ℕ_discrete c m)),
  has_reader-empty r' (without_reader r (or_empty (get ℕ_discrete c m))),
)

module _ (calls : Calls) (q : Publisher) where
  pub unsub_all_frame :
      (cs : List ℕ) (p : PubSub)
      → let p' = (unsub_all calls cs q p).0 in
        (p'.publishers ≡ p.publishers)
        × (p'.publishers_by_pub_client_id ≡ p.publishers_by_pub_client_id)
        × ((r : ℕ) → (p'.readers r).track_remote ≡ (p.readers r).track_remote)
  unfolding unsub_all
  unsub_all_frame [] p = (refl, refl, λ r. refl)
  unsub_all_frame (c ∷ cs) p =
      let (ps, os, rs) = unsub_frame calls c q p in
      let (ps', os', rs') = unsub_all_frame cs (unsub calls c q p).0 in
      (ps' ∙ ps, os' ∙ os, λ r. rs' r ∙ rs r)

  listening-unsub_all :
      (cs : List ℕ) (p : PubSub) (r c' : ℕ)
      → listening (unsub_all calls cs q p).0 r c'
        ≡ unless (q.reader == r && is_in c' cs) (listening p r c')
  unfolding unsub_all
  listening-unsub_all [] p r c' = ground arith
  listening-unsub_all (c ∷ cs) p r c' =
      grind
        (arith, listening-unsub_all cs (unsub calls c q p).0 r c', listening-unsub calls c q p r c')

  subscription-unsub_all :
      (cs : List ℕ) (p : PubSub) (c' t : ℕ)
      → subscription (unsub_all calls cs q p).0 c' t
        ≡ unless (is_in c' cs && track_id_of p q.reader == t) (subscription p c' t)
  unfolding unsub_all
  subscription-unsub_all [] p c' t = ground arith
  subscription-unsub_all (c ∷ cs) p c' t = grind (
    arith,
    subscription-unsub_all cs (unsub calls c q p).0 c' t,
    subscription-unsub calls c q p c' t,
    ap (λ (m : TrackRemote). m.track.track_id) ((unsub_frame calls c q p).2 q.reader),
  )

module _ (calls : Calls) (c t : ℕ) (q : Publisher) (p : PubSub)
    (e : publisher_of p t ≡ some q) where
  pub listening-unpub :
      (r c' : ℕ) → listening (unpub calls c t p).0 r c' ≡ unless (q.reader == r) (listening p r c')
  unfolding unpub unpub_at
  listening-unpub r c' = rw e (
      grind (
        arith,
        listening-unsub_all calls q (subs_of (p.readers q.reader).subs) p r c',
        subs_of-get c' (p.readers q.reader).subs,
      ))

  pub subscription-unpub :
      (c' t' : ℕ)
      → subscription (unpub calls c t p).0 c' t'
        ≡ unless
            (is_in c' (subs_of (p.readers q.reader).subs) && track_id_of p q.reader == t')
            (subscription p c' t')
  unfolding unpub unpub_at
  subscription-unpub c' t' =
      rw e (subscription-unsub_all calls q (subs_of (p.readers q.reader).subs) p c' t')

  pub publisher_of-unpub :
      (t' : ℕ) → publisher_of (unpub calls c t p).0 t' ≡ unless (t == t') (publisher_of p t')
  unfolding unpub unpub_at
  publisher_of-unpub t' = rw e (
      rw (unsub_all_frame calls q (subs_of (p.readers q.reader).subs) p).0
        (get-delete_if t t' p.publishers))

  pub owns-unpub :
      (c' r : ℕ)
      → owns (unpub calls c t p).0 c' r ≡ (if c == c' && q.reader == r then false else owns p c' r)
  unfolding unpub unpub_at
  owns-unpub c' r = rw e (
      rw (unsub_all_frame calls q (subs_of (p.readers q.reader).subs) p).1
        (remove_reader-get c c' q.reader r p.publishers_by_pub_client_id))

  pub remote-unpub :
      (r : ℕ) → ((unpub calls c t p).0.readers r).track_remote ≡ (p.readers r).track_remote
  unfolding unpub unpub_at
  remote-unpub r = rw e ((unsub_all_frame calls q (subs_of (p.readers q.reader).subs) p).2 r)
