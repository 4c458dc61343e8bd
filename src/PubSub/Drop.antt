-- ===== src/PubSub/Drop.antt =====
-- server/pubsub/track_reader.go: what one packet does to the subscribers of a reader.
use native.Mathlib.Decide.{ℕ_discrete}
use mathlib.Core.Logic.{if_pos, if_neg}
use peer_calls.Base.{
  ℕ, ◌≡◌, ◌∙◌, refl, sym, ap, arith, Bool, true, false, Option, none, some, List, [], ◌∷◌, ◌++◌,
  ◌==◌, if◌then◌else◌,
}
use peer_calls.Base.Dict.{get}
use peer_calls.Base.Keys.{unless, IsMap, Lacks-get}
use peer_calls.PubSub.Reader.{
  TrackReader, ReaderEffect, remote_subscribe, remote_unsubscribe, on_close, write_rtp, WriteResult,
  written, pipe_closed, other_failure, after_write, write_loop, read_packet,
}
use peer_calls.PubSub.Reader
use peer_calls.PubSub.View.{reader_unsub-get}

-- Whether a write to a local track finds it closed.
abbrev pub is_closed : WriteResult → Bool
is_closed written = false
is_closed pipe_closed = true
is_closed other_failure = false

-- An entry of the map after the loop has met some subscriber of its client, or none.
abbrev pub kept_after : (ℕ → WriteResult) → Option ℕ → Option ℕ → Option ℕ
kept_after writes none entry = entry
kept_after writes (some l) entry = unless (is_closed (writes l)) entry

-- The local tracks to which a packet is written.
abbrev pub writes_of : List ReaderEffect → List ℕ
writes_of [] = []
writes_of (remote_subscribe ∷ es) = writes_of es
writes_of (remote_unsubscribe ∷ es) = writes_of es
writes_of (on_close ∷ es) = writes_of es
writes_of (write_rtp l packet ∷ es) = l ∷ writes_of es

abbrev pub locals_of : List (ℕ × ℕ) → List ℕ
locals_of [] = []
locals_of ((c, l) ∷ m) = l ∷ locals_of m

module _ (u : Bool) where
  after_write-get :
      (c c' : ℕ) (r : WriteResult) (t : TrackReader)
      → get ℕ_discrete c' (after_write u c r t).0.subs ≡ (
          if is_closed r
          then unless (c == c') (get ℕ_discrete c' t.subs)
          else get ℕ_discrete c' t.subs)
  unfolding after_write
  after_write-get c c' written t = refl
  after_write-get c c' other_failure t = refl
  after_write-get c c' pipe_closed t = reader_unsub-get u c c' t

  after_write-quiet :
      (c : ℕ) (r : WriteResult) (t : TrackReader) (es : List ReaderEffect)
      → writes_of ((after_write u c r t).1 ++ es) ≡ writes_of es
  unfolding after_write Reader.unsub
  after_write-quiet c written t es = refl
  after_write-quiet c other_failure t es = refl
  after_write-quiet c pipe_closed t es = all_quiet (get ℕ_discrete c t.subs)
    where
      unsubscribed :
          (b : Bool) → writes_of ((if b then remote_unsubscribe ∷ [] else []) ++ es) ≡ writes_of es
      unsubscribed true = refl
      unsubscribed false = refl

      all_quiet : (o : Option ℕ) → writes_of ((Reader.unsub_at u c o t).1 ++ es) ≡ writes_of es
      all_quiet none = refl
      all_quiet (some l) = unsubscribed t.track_remote.unsubscribable

  module _ (writes : ℕ → WriteResult) (packet : ℕ) where
    write_loop-get :
        (m : List (ℕ × ℕ)) (t : TrackReader) (c' : ℕ)
        → IsMap m
        → get ℕ_discrete c' (write_loop u writes packet m t).0.subs
          ≡ kept_after writes (get ℕ_discrete c' m) (get ℕ_discrete c' t.subs)
    unfolding write_loop get
    write_loop-get [] t c' h = refl
    write_loop-get ((c, l) ∷ m) t c' (k, h) =
        let t1 = (after_write u c (writes l) t).0 in
        write_loop-get m t1 c' h ∙ elim (ℕ_discrete c c') [
          | yes p ↦
              ap (λ o. kept_after writes o (get ℕ_discrete c' t1.subs))
                (ap (λ i. get ℕ_discrete i m) (sym p) ∙ Lacks-get c m k)
              ∙ after_write-get c c' (writes l) t
              ∙ rw (if_pos (ℕ_discrete c c') p) (ground (arith, p))
          | no n ↦
              let same : get ℕ_discrete c' t1.subs ≡ get ℕ_discrete c' t.subs =
                grind (arith, n, after_write-get c c' (writes l) t) in
              ap (kept_after writes (get ℕ_discrete c' m)) same
              ∙ rw (if_neg (ℕ_discrete c c') n) refl
        ]

    write_loop-writes :
        (m : List (ℕ × ℕ)) (t : TrackReader)
        → writes_of (write_loop u writes packet m t).1 ≡ locals_of m
    unfolding write_loop
    write_loop-writes [] t = refl
    write_loop-writes ((c, l) ∷ m) t =
        ap (λ r. l ∷ r)
          (after_write-quiet c (writes l) t
              (write_loop u writes packet m (after_write u c (writes l) t).0).1
            ∙ write_loop-writes m (after_write u c (writes l) t).0)

    -- One packet is written once to the local track of every subscriber, and after it exactly the
    -- subscribers are gone whose track was found closed. Other failures of a write change nothing.
    pub read_packet_lem :
        (t : TrackReader)
        → IsMap t.subs
        → (writes_of (read_packet u writes packet t).1 ≡ locals_of t.subs)
          × ((c : ℕ)
              → get ℕ_discrete c (read_packet u writes packet t).0.subs
                ≡ kept_after writes (get ℕ_discrete c t.subs) (get ℕ_discrete c t.subs))
    unfolding read_packet
    read_packet_lem t h = (write_loop-writes t.subs t, λ c. write_loop-get t.subs t c h)
