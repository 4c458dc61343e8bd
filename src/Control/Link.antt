-- ===== src/Control/Link.antt =====
-- Two nodes that talk about one stream: each runs the handlers of Factory.antt, and the control
-- streams between them keep the order of what is sent. A schedule says who acts next.
use peer_calls.Base.{
  ℕ, ◌≡◌, ◌≢◌, ◌⊎◌, Bool, true, false, ◌&&◌, Option, none, some, List, [], ◌∷◌, ◌++◌,
}
use peer_calls.Control.{
  ControlState, closed, created, added, write_closed, RemoteEvent, create, create_ack, close,
  close_ack, LocalEvent,
}
use peer_calls.Control.Factory.{
  Slot, Env, Effect, send, Outcome, remote_slot, local_slot, slot_or_new,
}
use peer_calls.Control.Slots.{SoundOption}

-- One node's part of a stream: its slot, what is on its way to it, and whether its event loop runs.
pub record Node : Type 0 where
  pub slot : Option Slot
  pub inbox : List RemoteEvent
  pub alive : Bool

pub record Pair : Type 0 where
  pub near : Node
  pub far : Node

-- An environment in which the transport `x` is created and nothing fails.
abbrev pub calm : ℕ → Env
calm x = record { new_transport = some x; torn_down = false; send_ok = true }

abbrev sent : List Effect → List RemoteEvent
sent [] = []
sent (send e ∷ es) = e ∷ sent es
sent (_ ∷ es) = sent es

abbrev apply : Outcome → Node → Node
apply o n = record n { slot = o.slot; alive = n.alive && o.go_on }

abbrev enqueue : List Effect → Node → Node
enqueue es n = record n { inbox = n.inbox ++ sent es }

abbrev settle : Outcome → Node → Node → Node × Node
settle o me peer = (apply o me, enqueue o.effects peer)

-- The environment of a handler in which a transport can be created, the factory is not torn down and
-- the send succeeds.
abbrev pub IsCalm : Env → Type 0
IsCalm env = (env.new_transport ≢ none) × (env.torn_down ≡ false) × (env.send_ok ≡ true)

unfoldable pub wish : Env → LocalEvent → Node → Node → Node × Node
wish env e me peer = settle (local_slot env e (slot_or_new me.slot)) me peer

-- The first event of the inbox is taken from it and handled; an empty inbox does nothing.
receive_at : Env → List RemoteEvent → Node → Node → Node × Node
receive_at env [] me peer = (me, peer)
receive_at env (e ∷ es) me peer =
    settle (remote_slot env e (slot_or_new me.slot)) (record me { inbox = es }) peer

unfoldable pub receive : Env → Node → Node → Node × Node
unfolding receive_at
receive env me peer = receive_at env me.inbox me peer

-- Each action has the environment in which its handler runs.
pub data Action : Type 0 where
  near_wish far_wish : Env → LocalEvent → Action
  near_receive far_receive : Env → Action

-- The handler of an action meets no failure.
abbrev pub RunsCalm : Action → Type 0
RunsCalm (near_wish env e) = IsCalm env
RunsCalm (far_wish env e) = IsCalm env
RunsCalm (near_receive env) = IsCalm env
RunsCalm (far_receive env) = IsCalm env

abbrev forth : Node × Node → Pair
forth (a, b) = record { near = a; far = b }

abbrev back : Node × Node → Pair
back (b, a) = record { near = a; far = b }

unfoldable pub act : Action → Pair → Pair
unfolding wish receive
act (near_wish env e) p = forth (wish env e p.near p.far)
act (far_wish env e) p = back (wish env e p.far p.near)
act (near_receive env) p = forth (receive env p.near p.far)
act (far_receive env) p = back (receive env p.far p.near)

unfoldable pub act_all : List Action → Pair → Pair
act_all [] p = p
act_all (a ∷ more) p = act_all more (act a p)

abbrev pub fresh : Node
fresh = record { slot = none; inbox = []; alive = true }

abbrev pub state_of : Node → ControlState
state_of n = (slot_or_new n.slot).tracker.state

abbrev Looks : Pair → ControlState → ControlState → List RemoteEvent → List RemoteEvent → Type 0
Looks p s t in_near in_far =
    (state_of p.near ≡ s) × (state_of p.far ≡ t) × (p.near.inbox ≡ in_near) × (p.far.inbox ≡ in_far)

-- The six moments of the two-node diagram in the source, with what is on its way.
abbrev pub InStep : Pair → Type 0
InStep p =
    Looks p closed closed [] []
    ⊎ Looks p created closed [] (create ∷ [])
    ⊎ Looks p created added (create_ack ∷ []) []
    ⊎ Looks p added added [] []
    ⊎ Looks p write_closed added [] (close ∷ [])
    ⊎ Looks p write_closed closed (close_ack ∷ []) []

pub record IsHealthy (p : Pair) : Type 0 where
  pub near_alive : p.near.alive ≡ true
  pub far_alive : p.far.alive ≡ true
  pub near_sound : SoundOption p.near.slot
  pub far_sound : SoundOption p.far.slot
  pub in_step : InStep p

-- Actions in which only the near node has wishes of its own.
abbrev pub NearLeads : Action → Type 0
NearLeads (far_wish _ _) = ⊥
NearLeads _ = Unit
