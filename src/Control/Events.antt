-- ===== src/Control/Events.antt =====
-- server/udptransport2/control_state_tracker.go: the answers of a tracker to each event.
use peer_calls.Base.{
  ◌≡◌, refl, ◌≢◌, ◌↔◌, ◌⊎◌, inl, inr, Bool, true, false, arith, Option, none, some, List, [], ◌∷◌,
}
use peer_calls.Control.{
  ControlState, closed, created, added, write_closed, RemoteEvent, no_event, create, create_ack,
  close, close_ack, LocalEvent, no_local, want_create, want_close, Tracker, handle_local_event,
  handle_pending_event, Reply, accepted, unexpected, handle_remote_event, new_tracker,
}

-- The acknowledgement that a state waits for, after a request of its own.
abbrev pub awaited : ControlState → Option RemoteEvent
awaited created = some create_ack
awaited write_closed = some close_ack
awaited _ = none

-- A request is expected while no acknowledgement is awaited, an acknowledgement while it is.
abbrev pub IsExpected : RemoteEvent → ControlState → Type 0
IsExpected no_event s = ⊥
IsExpected create s = awaited s ≡ none
IsExpected close s = awaited s ≡ none
IsExpected create_ack s = awaited s ≡ some create_ack
IsExpected close_ack s = awaited s ≡ some close_ack

-- The state in which a request and its acknowledgement are to leave the stream.
abbrev pub target : RemoteEvent → ControlState
target create = added
target create_ack = added
target _ = closed

-- The acknowledgement of a request.
abbrev pub ack : RemoteEvent → RemoteEvent
ack create = create_ack
ack close = close_ack
ack _ = no_event

abbrev pub IsUnexpected : Reply → Type 0
IsUnexpected (accepted _ _) = ⊥
IsUnexpected (unexpected _ _) = Unit {0}

-- The two answers of `handleRemoteEvent` to an event, with what must hold for each.
abbrev pub Answer : RemoteEvent → Tracker → Type 0
Answer e t =
    (IsExpected e t.state
      × ((changed : Bool) × ((changed ≡ true) ↔ (target e ≢ t.state))
          × (handle_remote_event e t ≡ (record t { state = target e }, accepted (ack e) changed))))
    ⊎ ((¬ IsExpected e t.state) × (handle_remote_event e t ≡ (t, unexpected t.state e)))

-- What `handleLocalEvent` sends: nothing, in an unchanged state, or, where nothing is awaited, a
-- request whose acknowledgement is awaited then.
abbrev pub Request : LocalEvent → Tracker → Type 0
Request w t =
    let (t', sent) = handle_local_event w t in
    ((sent ≡ no_event) × (t'.state ≡ t.state))
    ⊎ ((awaited t.state ≡ none) × (awaited t'.state ≡ some (ack sent)))

Request-at :
    (w : LocalEvent) (s : ControlState) (p : RemoteEvent)
    → Request w (record { state = s; pending_local_event = p })
unfolding handle_local_event
Request-at no_local s p = inl (refl, refl)
Request-at want_create closed p = inr (refl, refl)
Request-at want_create created p = inl (refl, refl)
Request-at want_create added p = inl (refl, refl)
Request-at want_create write_closed p = inl (refl, refl)
Request-at want_close closed p = inl (refl, refl)
Request-at want_close created p = inl (refl, refl)
Request-at want_close added p = inr (refl, refl)
Request-at want_close write_closed p = inl (refl, refl)

Answer-at :
    (e : RemoteEvent) (s : ControlState) (p : RemoteEvent)
    → Answer e (record { state = s; pending_local_event = p })
unfolding handle_remote_event
Answer-at no_event s p = inr ((λ h. h), refl)
Answer-at create closed p = inl (refl, (true, ((λ _ h. cc), λ _. refl), refl))
Answer-at create added p = inl (refl, (false, ((λ h. cc), λ h. absurd (h refl)), refl))
Answer-at create created p = inr ((λ h. cc), refl)
Answer-at create write_closed p = inr ((λ h. cc), refl)
Answer-at create_ack closed p = inr ((λ h. cc), refl)
Answer-at create_ack created p = inl (refl, (true, ((λ _ h. cc), λ _. refl), refl))
Answer-at create_ack added p = inr ((λ h. cc), refl)
Answer-at create_ack write_closed p = inr ((λ h. cc), refl)
Answer-at close closed p = inl (refl, (false, ((λ h. cc), λ h. absurd (h refl)), refl))
Answer-at close added p = inl (refl, (true, ((λ _ h. cc), λ _. refl), refl))
Answer-at close created p = inr ((λ h. cc), refl)
Answer-at close write_closed p = inr ((λ h. cc), refl)
Answer-at close_ack closed p = inr ((λ h. cc), refl)
Answer-at close_ack created p = inr ((λ h. cc), refl)
Answer-at close_ack added p = inr ((λ h. cc), refl)
Answer-at close_ack write_closed p = inl (refl, (true, ((λ _ h. cc), λ _. refl), refl))

-- A request of the remote node, to create or to close, is accepted exactly while the tracker awaits
-- no acknowledgement of its own, and an acknowledgement exactly while it is the one awaited. An
-- accepted event takes the state to `added`, or to `closed`, answers a request with its
-- acknowledgement, keeps what is pending, and says whether the state is another one; any other
-- event is reported, and the tracker stays as it was. A local event sends nothing and leaves the
-- state, or sends, where nothing is awaited, a request whose acknowledgement is awaited then.
pub handle_remote_event_answers :
    (e : RemoteEvent) (w : LocalEvent) (t : Tracker) → Answer e t × Request w t
handle_remote_event_answers e w t =
    (Answer-at e t.state t.pending_local_event, Request-at w t.state t.pending_local_event)

-- What may wait in each state while every event is followed by `handlePendingEvent`.
abbrev pub PendingFits : Tracker → Type 0
PendingFits t =
    (t.pending_local_event ≡ no_event)
    ⊎ ((t.pending_local_event ≡ close) × (t.state ≡ created))
    ⊎ ((t.pending_local_event ≡ create) × (t.state ≡ write_closed))
    ⊎ ((t.pending_local_event ≡ create) × (t.state ≡ created))

-- What reaches a tracker: the wish of the local node, or an event of the remote one.
pub data Input : Type 0 where
  local : LocalEvent → Input
  remote : RemoteEvent → Input

after_reply : Tracker × Reply → Tracker × List RemoteEvent
unfolding handle_pending_event
after_reply (t, accepted response _) =
    let (t', event) = handle_pending_event t in (t', response ∷ event ∷ [])
after_reply (t, unexpected _ _) = (t, [])

-- One input handled as the source asks for: `handlePendingEvent` follows each accepted remote
-- event. The list has what is to be sent, in order.
unfoldable pub react : Input → Tracker → Tracker × List RemoteEvent
unfolding handle_local_event handle_remote_event after_reply
react (local e) t = let (t', event) = handle_local_event e t in (t', event ∷ [])
react (remote e) t = after_reply (handle_remote_event e t)

unfoldable pub react_all : List Input → Tracker → Tracker
react_all [] t = t
react_all (i ∷ is) t = react_all is (react i t).0

react-PendingFits : (i : Input) (t : Tracker) → PendingFits t → PendingFits (react i t).0
unfolding react
react-PendingFits (local e) t h = ground arith
react-PendingFits (remote e) t h = ground arith

react_all-PendingFits :
    (is : List Input) (t : Tracker) → PendingFits t → PendingFits (react_all is t)
unfolding react_all
react_all-PendingFits [] t h = h
react_all-PendingFits (i ∷ is) t h =
    react_all-PendingFits is (react i t).0 (react-PendingFits i t h)

-- Whatever happens to a new tracker, a close waits only in the state `created`, a create only in
-- `write_closed` and in `created`, and no other event ever waits.
pub react_all-new : (is : List Input) → PendingFits (react_all is new_tracker)
react_all-new is = react_all-PendingFits is new_tracker (inl refl)

-- A close that is wanted while a create is not yet acknowledged waits for the `create_ack`; then
-- it is sent, and the tracker is `write_closed` with nothing left to do.
pub deferred_close :
    (t : Tracker)
    → t.state ≡ created
    → let (t1, sent1) = react (local want_close) t in
      let (t2, sent2) = react (remote create_ack) t1 in
      (sent1 ≡ no_event ∷ [])
      × (sent2 ≡ no_event ∷ close ∷ [])
      × (t2 ≡ record { state = write_closed; pending_local_event = no_event })
unfolding react
deferred_close t h = ground arith

-- A create that is wanted while a close is not yet acknowledged waits for the `close_ack`; then
-- it is sent, and the tracker is `created`. The create stays pending until the next `create_ack`,
-- whose `handlePendingEvent` clears it and sends nothing.
pub deferred_create :
    (t : Tracker)
    → t.state ≡ write_closed
    → let (t1, sent1) = react (local want_create) t in
      let (t2, sent2) = react (remote close_ack) t1 in
      let (t3, sent3) = react (remote create_ack) t2 in
      (sent1 ≡ no_event ∷ [])
      × (sent2 ≡ no_event ∷ create ∷ [])
      × (t2.state ≡ created)
      × (t2.pending_local_event ≡ create)
      × (sent3 ≡ no_event ∷ no_event ∷ [])
      × (t3 ≡ record { state = added; pending_local_event = no_event })
unfolding react
deferred_create t h = ground arith
