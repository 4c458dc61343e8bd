-- ===== src/PubSub/Consistent.antt =====
-- server/pubsub/pubsub.go: the maps agree with each other and with the readers.
use native.Mathlib.Decide.{ℕ_discrete}
use peer_calls.Base.{
  ℕ, ◌≡◌, arith, true, ◌&&◌, none, some, List, ◌==◌, if◌then◌else◌, Bool-cases, inl, inr,
}
use peer_calls.Base.Dict.{get, set}
use peer_calls.Base.Keys.{get-set_if}
use peer_calls.PubSub.Broker.{
  Publisher, PubSub, Calls, pub_track, unsub, or_empty, has_reader, with_reader,
}
use peer_calls.PubSub.View.{
  listening, subscription, publisher_of, owns, track_id_of, listening-unsub, subscription-unsub,
  unsub_frame,
}
use peer_calls.PubSub.Join.{Joins}

-- A publisher stands under its reader's track and among its client's readers; a client's readers
-- are published by it; the listeners of a published reader are the clients subscribed to its
-- track; and nobody is subscribed to anything else.
pub record IsConsistent (p : PubSub) : Type 0 where
  pub placed :
      (t : ℕ) (q : Publisher)
      → publisher_of p t ≡ some q
      → (track_id_of p q.reader ≡ t) × (owns p q.client_id q.reader ≡ true)
  pub owned :
      (c r : ℕ)
      → owns p c r ≡ true
      → (q : Publisher) × (publisher_of p (track_id_of p r) ≡ some q)
        × (q.reader ≡ r)
        × (q.client_id ≡ c)
  pub heard :
      (t c l : ℕ) (q : Publisher)
      → publisher_of p t ≡ some q
      → listening p q.reader c ≡ some l
      → subscription p c t ≡ some q
  pub known :
      (c t : ℕ) (q : Publisher)
      → subscription p c t ≡ some q
      → (publisher_of p t ≡ some q) × (l : ℕ) × (listening p q.reader c ≡ some l)

-- A reader whose track is not published, and to which nobody listens.
pub record IsFresh (r : ℕ) (p : PubSub) : Type 0 where
  pub unpublished : publisher_of p (track_id_of p r) ≡ none
  pub unheard : (c : ℕ) → listening p r c ≡ none

with_reader-has :
    (r r' : ℕ) (set : List ℕ)
    → has_reader r' (with_reader r set) ≡ (if r == r' then true else has_reader r' set)
with_reader-has r r' set = elim (Bool-cases (has_reader r set)) [
  | inl e ↦ rw e (grind arith)
  | inr e ↦ rw e (grind arith)
]

module _ (c r : ℕ) (p : PubSub) where
  abbrev pub new_publisher : Publisher
  new_publisher = record { client_id = c; reader = r; bitrate_estimator = p.next_estimator }

  pub publisher_of-pub :
      (t : ℕ)
      → publisher_of (pub_track c r p).0 t
        ≡ (if track_id_of p r == t then some new_publisher else publisher_of p t)
  unfolding pub_track
  publisher_of-pub t = get-set_if (track_id_of p r) t new_publisher p.publishers

  owns-pub :
      (c' r' : ℕ)
      → owns (pub_track c r p).0 c' r' ≡ (if c == c' && r == r' then true else owns p c' r')
  unfolding pub_track
  owns-pub c' r' = grind (
    arith,
    get-set_if c c' (with_reader r (or_empty (get ℕ_discrete c p.publishers_by_pub_client_id)))
        p.publishers_by_pub_client_id,
    with_reader-has r r' (or_empty (get ℕ_discrete c p.publishers_by_pub_client_id)),
  )

  -- Publishing a fresh reader.
  pub pub_track-IsConsistent : IsConsistent p → IsFresh r p → IsConsistent (pub_track c r p).0
  unfolding pub_track
  pub_track-IsConsistent h f = record {
    placed =
        λ t q e. grind (arith, publisher_of-pub t, owns-pub q.client_id q.reader, h.placed t q);
    owned = λ c' r' e. elim (Bool-cases (c == c' && r == r')) [
      | inl same ↦ (
        new_publisher,
        grind (arith, publisher_of-pub (track_id_of p r')),
        ground arith,
        ground arith,
      )
      | inr other ↦
          let (q, s, i, j) = h.owned c' r' (grind (arith, owns-pub c' r')) in
          (q, grind (arith, publisher_of-pub (track_id_of p r'), f.unpublished), i, j)
    ];
    heard = λ t c' l q e s. grind (arith, publisher_of-pub t, h.heard t c' l q, f.unheard c');
    known = λ c' t q s. grind (arith, publisher_of-pub t, h.known c' t q s, f.unpublished);
  }

module _ (calls : Calls) where
  -- A subscriber of a published track leaves it.
  pub unsub-IsConsistent :
      (c t : ℕ) (q : Publisher) (p : PubSub)
      → IsConsistent p
      → publisher_of p t ≡ some q
      → IsConsistent (unsub calls c q p).0
  unsub-IsConsistent c t q p h e =
      let (ps, os, rs) = unsub_frame calls c q p in
      record {
        placed = λ t' q' s. grind (arith, h.placed t' q', ps, os, rs q'.reader);
        owned = λ c' r' s. grind (arith, h.owned c' r', ps, os, rs r');
        heard = λ t' c' l q' s m. grind (
          arith,
          ps,
          listening-unsub calls c q p q'.reader c',
          subscription-unsub calls c q p c' t',
          h.heard t' c' l q',
          h.placed t q e,
        );
        known = λ c' t' q' s.
            let (e', l, m) =
              h.known c' t' q' (grind (arith, subscription-unsub calls c q p c' t')) in
            (
              grind (arith, ps),
              l,
              grind (
                arith,
                listening-unsub calls c q p q'.reader c',
                subscription-unsub calls c q p c' t',
                h.placed t q e,
                h.placed t' q' e',
              ),
            );
      }

pub Joins-IsConsistent :
    (q : Publisher) (t l c : ℕ) (p p' : PubSub)
    → IsConsistent p
    → publisher_of p t ≡ some q
    → Joins q l c p p'
    → IsConsistent p'
Joins-IsConsistent q t l c p p' h e j = record {
  placed = λ t' q' s. grind (arith, h.placed t' q', j.publishes, j.owners, j.remotes q'.reader);
  owned = λ c' r' s. grind (arith, h.owned c' r', j.publishes, j.owners, j.remotes r');
  heard = λ t' c' l' q' s m. grind (
    arith,
    j.publishes,
    j.listens q'.reader c',
    j.subscribes c' t',
    h.heard t' c' l' q',
    h.placed t q e,
    h.placed t' q',
  );
  known = λ c' t' q' s. elim (Bool-cases (c == c' && track_id_of p q.reader == t')) [
    | inl same ↦ (
      grind (arith, j.publishes, j.subscribes c' t', h.placed t q e),
      l,
      grind (arith, j.listens q'.reader c', j.subscribes c' t'),
    )
    | inr other ↦
        let (e', l', m) = h.known c' t' q' (grind (arith, j.subscribes c' t')) in
        (
          grind (arith, j.publishes),
          (if q.reader == q'.reader && c == c' then l else l'),
          grind (arith, j.listens q'.reader c'),
        )
  ];
}
