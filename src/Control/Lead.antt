-- ===== src/Control/Lead.antt =====
-- server/udptransport2: two nodes of which only the near one has wishes, against the diagram of
-- two nodes.
use peer_calls.Base.{◌≡◌, ◌⊎◌, List, [], ◌∷◌, arith, All}
use peer_calls.Control.{closed, added, LocalEvent}
use peer_calls.Control.Factory.{Env, remote_slot, local_slot}
use peer_calls.Control.Link.{
  Action, near_wish, far_wish, near_receive, far_receive, Pair, act, act_all, fresh, state_of,
  IsHealthy, NearLeads, IsCalm, RunsCalm,
}

near_wish-IsHealthy :
    (env : Env) (e : LocalEvent) (p : Pair)
    → IsCalm env
    → IsHealthy p
    → IsHealthy (act (near_wish env e) p)
unfolding act local_slot
near_wish-IsHealthy env e p calm h = ground arith

near_receive-IsHealthy :
    (env : Env) (p : Pair) → IsCalm env → IsHealthy p → IsHealthy (act (near_receive env) p)
unfolding act remote_slot
near_receive-IsHealthy env p calm h = ground arith

far_receive-IsHealthy :
    (env : Env) (p : Pair) → IsCalm env → IsHealthy p → IsHealthy (act (far_receive env) p)
unfolding act remote_slot
far_receive-IsHealthy env p calm h = ground arith

act-IsHealthy :
    (a : Action) (p : Pair) → NearLeads a → RunsCalm a → IsHealthy p → IsHealthy (act a p)
act-IsHealthy (near_wish env e) p l c h = near_wish-IsHealthy env e p c h
act-IsHealthy (far_wish env e) p l c h = absurd l
act-IsHealthy (near_receive env) p l c h = near_receive-IsHealthy env p c h
act-IsHealthy (far_receive env) p l c h = far_receive-IsHealthy env p c h

act_all-IsHealthy :
    (acts : List Action) (p : Pair)
    → All NearLeads acts
    → All RunsCalm acts
    → IsHealthy p
    → IsHealthy (act_all acts p)
unfolding act_all
act_all-IsHealthy [] p l c h = h
act_all-IsHealthy (a ∷ more) p (la, lm) (ca, cm) h =
    act_all-IsHealthy more (act a p) lm cm (act-IsHealthy a p la ca h)

-- Where no handler fails, that is, a transport can be created, no factory is torn down and each send
-- succeeds, and only the near node has wishes: whatever it wishes, and however its wishes and the
-- deliveries in both directions interleave, both event loops keep running, each slot has a
-- transport exactly while its tracker is not closed, and states and inboxes are at one of the six
-- moments of the diagram.
pub one_leader_safe :
    (schedule : List Action)
    → All NearLeads schedule
    → All RunsCalm schedule
    → IsHealthy (act_all schedule (record { near = fresh; far = fresh }))
one_leader_safe schedule l c = act_all-IsHealthy schedule _ l c (ground arith)

-- From a pair of nodes at one of the moments of the diagram, whose event loops run and whose slots
-- have a transport exactly while their trackers are not closed: two deliveries, to the far node and
-- then to the near one, whose handlers meet no failure, empty both inboxes; then both nodes are
-- closed, or both have added the transport.
pub one_leader_settles :
    (far_env near_env : Env) (p : Pair)
    → IsCalm far_env
    → IsCalm near_env
    → IsHealthy p
    → let q = act_all (far_receive far_env ∷ near_receive near_env ∷ []) p in
      (q.near.inbox ≡ [])
      × (q.far.inbox ≡ [])
      × (((state_of q.near ≡ closed) × (state_of q.far ≡ closed))
          ⊎ ((state_of q.near ≡ added) × (state_of q.far ≡ added)))
unfolding act_all act remote_slot
one_leader_settles far_env near_env p c1 c2 h = ground arith
