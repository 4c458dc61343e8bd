-- ===== src/PubSub/Reader.antt =====
-- server/pubsub/track_reader.go: the reader of one remote track, which copies its packets to the
-- local tracks of its subscribers. What `WriteRTP` of a local track answers and whether the remote
-- track's `Unsubscribe` succeeds are parameters. Clients, tracks and local tracks are numbers.
use native.Mathlib.Decide.{ℕ_discrete}
use peer_calls.Base.{ℕ, Bool, true, false, Option, none, some, List, [], ◌∷◌, ◌++◌, if◌then◌else◌}
use peer_calls.Base.Dict.{get, set, delete}

pub data TrackKind : Type 0 where
  audio video : TrackKind

pub record Track : Type 0 where
  pub track_id : ℕ
  pub peer_id : ℕ
  pub kind : TrackKind

-- A remote track, and whether it is a `subscribable` and an `unsubscribable`.
pub record TrackRemote : Type 0 where
  pub track : Track
  pub ssrc : ℕ
  pub rid : ℕ
  pub subscribable : Bool
  pub unsubscribable : Bool

pub record TrackReader : Type 0 where
  pub closed : Bool
  pub track_remote : TrackRemote
  pub subs : List (ℕ × ℕ)

pub data ReaderError : Type 0 where
  closed_pipe already_subscribed not_subscribed unsubscribe_failed : ReaderError

-- What a reader asks of its remote track and of the local tracks, and that it calls `onClose`.
pub data ReaderEffect : Type 0 where
  remote_subscribe remote_unsubscribe on_close : ReaderEffect
  write_rtp : ℕ → ℕ → ReaderEffect

-- The answer of `WriteRTP`: `closed` is `io.ErrClosedPipe`.
pub data WriteResult : Type 0 where
  written pipe_closed other_failure : WriteResult

unfoldable pub new_track_reader : TrackRemote → TrackReader
new_track_reader remote = record { closed = false; track_remote = remote; subs = [] }

abbrev pub track_of : TrackReader → Track
track_of t = t.track_remote.track

abbrev sub_at :
    ℕ → ℕ → Option ℕ → TrackReader → TrackReader × List ReaderEffect × Option ReaderError
sub_at client local (some _) t = (t, [], some already_subscribed)
sub_at client local none t = (
  record t { subs = set ℕ_discrete client local t.subs },
  (if t.track_remote.subscribable then remote_subscribe ∷ [] else []),
  none,
)

unfoldable pub sub : ℕ → ℕ → TrackReader → TrackReader × List ReaderEffect × Option ReaderError
sub client local t =
    if t.closed
    then (t, [], some closed_pipe)
    else sub_at client local (get ℕ_discrete client t.subs) t

-- The map's clients, in the order in which Go goes through it.
unfoldable pub subs_of : List (ℕ × ℕ) → List ℕ
subs_of [] = []
subs_of ((client, local) ∷ m) = client ∷ subs_of m

module _ (unsubscribes : Bool) where
  abbrev pub unsub_at :
      ℕ → Option ℕ → TrackReader → TrackReader × List ReaderEffect × Option ReaderError
  unsub_at client none t = (t, [], some not_subscribed)
  unsub_at client (some _) t = (
    record t { subs = delete ℕ_discrete client t.subs },
    (if t.track_remote.unsubscribable then remote_unsubscribe ∷ [] else []),
    (if t.track_remote.unsubscribable
        then (if unsubscribes then none else some unsubscribe_failed)
        else none),
  )

  unfoldable pub unsub : ℕ → TrackReader → TrackReader × List ReaderEffect × Option ReaderError
  unsub client t = unsub_at client (get ℕ_discrete client t.subs) t

  -- What is left to do for one subscriber after `WriteRTP`.
  unfoldable pub after_write : ℕ → WriteResult → TrackReader → TrackReader × List ReaderEffect
  after_write client written t = (t, [])
  after_write client other_failure t = (t, [])
  after_write client pipe_closed t = let (t', effects, _) = unsub client t in (t', effects)

  module _ (writes : ℕ → WriteResult) (packet : ℕ) where
    -- The loop over the subscribers for one packet. Go's loop meets each entry once, also where the
    -- body deletes it.
    unfoldable pub write_loop : List (ℕ × ℕ) → TrackReader → TrackReader × List ReaderEffect
    write_loop [] t = (t, [])
    write_loop ((client, local) ∷ m) t =
        let (t1, effects) = after_write client (writes local) t in
        let (t2, more) = write_loop m t1 in (t2, write_rtp local packet ∷ (effects ++ more))

    unfoldable pub read_packet : TrackReader → TrackReader × List ReaderEffect
    read_packet t = write_loop t.subs t

-- The end of `startReadLoop`, after `ReadRTP` has failed.
unfoldable pub end_read_loop : TrackReader → TrackReader × List ReaderEffect
end_read_loop t = (record t { closed = true }, on_close ∷ [])
