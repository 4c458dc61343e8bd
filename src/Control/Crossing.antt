-- ===== src/Control/Crossing.antt =====
-- server/udptransport2: wishes of two nodes that cross, and wishes that must wait in the factory.
use peer_calls.Base.{ℕ, ◌≡◌, [], ◌∷◌, arith, none, some, false}
use peer_calls.Control.{
  closed, created, added, write_closed, close, create_ack, close_ack, want_create, want_close,
}
use peer_calls.Control.Factory.{
  Slot, deliver, close_transport, remote_slot, local_slot, slot_or_new,
}
use peer_calls.Control.Link.{
  near_wish, far_wish, near_receive, far_receive, Pair, act, act_all, state_of, IsHealthy, calm,
}

-- Both nodes are closed and at rest, and both want to create before either hears of the other:
-- both are `created` then, and the first event that is received, on either side, ends that node's
-- event loop.
pub crossed_creates :
    (x y z : ℕ) (p : Pair)
    → IsHealthy p
    → state_of p.near ≡ closed
    → state_of p.far ≡ closed
    → p.near.inbox ≡ []
    → p.far.inbox ≡ []
    → let q = act_all (near_wish (calm x) want_create ∷ far_wish (calm y) want_create ∷ []) p in
      (state_of q.near ≡ created)
      × (state_of q.far ≡ created)
      × ((act (near_receive (calm z)) q).near.alive ≡ false)
      × ((act (far_receive (calm z)) q).far.alive ≡ false)
unfolding act_all act remote_slot local_slot
crossed_creates x y z p h cn cf en ef = ground arith

-- The same of two nodes that have added the transport and both want to close it.
pub crossed_closes :
    (x y z : ℕ) (p : Pair)
    → IsHealthy p
    → state_of p.near ≡ added
    → state_of p.far ≡ added
    → let q = act_all (near_wish (calm x) want_close ∷ far_wish (calm y) want_close ∷ []) p in
      (state_of q.near ≡ write_closed)
      × (state_of q.far ≡ write_closed)
      × ((act (near_receive (calm z)) q).near.alive ≡ false)
      × ((act (far_receive (calm z)) q).far.alive ≡ false)
unfolding act_all act remote_slot local_slot
crossed_closes x y z p h an af = ground arith

-- The factory does not call `handlePendingEvent`. A close that is wanted in the state `created`,
-- before the create is acknowledged, sends nothing; the `create_ack` then delivers the transport
-- and sends nothing, and the tracker is left `added` with the close still pending.
pub forgotten_close :
    (x y t : ℕ) (s : Slot)
    → s.tracker.state ≡ created
    → s.transport ≡ some t
    → let o = local_slot (calm x) want_close s in
      let o' = remote_slot (calm y) create_ack (slot_or_new o.slot) in
      (o.effects ≡ [])
      × (o'.effects ≡ deliver (some t) ∷ [])
      × (o'.slot
          ≡ some (record {
            transport = some t;
            tracker = record { state = added; pending_local_event = close };
          }))
unfolding remote_slot local_slot
forgotten_close x y t s c e = ground arith

-- A create that is wanted while a close waits for its acknowledgement is dropped with the slot:
-- the `close_ack` closes the transport, deletes the slot and sends nothing.
pub forgotten_create :
    (x y t : ℕ) (s : Slot)
    → s.tracker.state ≡ write_closed
    → s.transport ≡ some t
    → let o = local_slot (calm x) want_create s in
      let o' = remote_slot (calm y) close_ack (slot_or_new o.slot) in
      (o.effects ≡ []) × (o'.effects ≡ close_transport t ∷ []) × (o'.slot ≡ none)
unfolding remote_slot local_slot
forgotten_create x y t s c e = ground arith
