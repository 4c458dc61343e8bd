-- ===== src/PubSub/Hub.antt =====
-- server/pubsub/events.go: the goroutine that hands each event of `eventsChan` to the channels of
-- the subscribers. A channel is a number, a new one for each subscription. A round of the `select` is
-- an input; the end of a round is what was sent and closed in it, in order.
use native.Mathlib.Decide.{ℕ_discrete}
use peer_calls.Base.{ℕ, suc, Option, none, some, List, [], ◌∷◌, ◌++◌}
use peer_calls.Base.Dict.{get, set, delete}

pub data SubRequestType : Type 0 where
  request_subscribe request_unsubscribe : SubRequestType

pub data HubEffect {ℓ} (E : Type ℓ) : Type ℓ where
  hub_send : ℕ → E → HubEffect E
  hub_close : ℕ → HubEffect E

pub data HubInput {ℓ} (E : Type ℓ) : Type ℓ where
  event_in : E → HubInput E
  request_in : ℕ → SubRequestType → HubInput E

-- `subs`, and the number of the next channel.
pub record Hub : Type 0 where
  pub subs : List (ℕ × ℕ)
  pub next_channel : ℕ

unfoldable pub new_hub : Hub
new_hub = record { subs = []; next_channel = 0 }

-- A client's earlier subscription ends with any request of it: its channel is closed.
unfoldable pub end_existing : ℕ → Option ℕ → Hub → Hub
end_existing client none h = h
end_existing client (some out) h = record h { subs = delete ℕ_discrete client h.subs }

-- The hub and the channel of the answer, if any.
unfoldable pub subscribe_if : ℕ → SubRequestType → Hub → Hub × Option ℕ
subscribe_if client request_unsubscribe h = (h, none)
subscribe_if client request_subscribe h = (
  record { subs = set ℕ_discrete client h.next_channel h.subs; next_channel = suc h.next_channel },
  some h.next_channel,
)

-- The hub, the channel that is closed, and the channel of the answer.
unfoldable pub hub_request : ℕ → SubRequestType → Hub → Hub × Option ℕ × Option ℕ
hub_request client typ h =
    let existing = get ℕ_discrete client h.subs in
    let (h', sub) = subscribe_if client typ (end_existing client existing h) in (h', existing, sub)

module _ {ℓ} {E : Type ℓ} where
  unfoldable pub send_all : List (ℕ × ℕ) → E → List (HubEffect E)
  send_all [] event = []
  send_all ((client, out) ∷ subs) event = hub_send out event ∷ send_all subs event

  unfoldable pub close_all_subs : List (ℕ × ℕ) → List (HubEffect E)
  close_all_subs [] = []
  close_all_subs ((client, out) ∷ subs) = hub_close out ∷ close_all_subs subs

  abbrev pub close_effect : Option ℕ → List (HubEffect E)
  close_effect none = []
  close_effect (some out) = hub_close out ∷ []

  unfoldable pub hub_round : HubInput E → Hub → Hub × List (HubEffect E)
  hub_round (event_in event) h = (h, send_all h.subs event)
  hub_round (request_in client typ) h =
      let (h', closed, sub) = hub_request client typ h in (h', close_effect closed)

  -- The rounds until `in` is closed, and then the deferred function.
  unfoldable pub hub_run : List (HubInput E) → Hub → List (HubEffect E)
  hub_run [] h = close_all_subs h.subs
  hub_run (i ∷ is) h = let (h', effects) = hub_round i h in effects ++ hub_run is h'
