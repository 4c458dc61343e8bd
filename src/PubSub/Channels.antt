-- ===== src/PubSub/Channels.antt =====
-- server/pubsub/events.go: what each channel of a subscriber carries, and when it is closed.
use native.Mathlib.Decide.{ℕ_discrete}
use peer_calls.Base.{
  ℕ, ◌<◌, ◌≡◌, ◌∙◌, refl, ap, arith, Option, none, some, List, [], ◌∷◌, ◌++◌, ◌==◌, if◌then◌else◌,
}
use peer_calls.Base.Dict.{get}
use peer_calls.PubSub.Hub.{
  HubEffect, hub_send, hub_close, HubInput, event_in, request_in, Hub, send_all, close_all_subs,
  close_effect, hub_request, hub_round, hub_run,
}
use peer_calls.PubSub.Delivery.{hit, uses, get-uses, IsHub, request_lem}

-- What happens on one channel: the events that are sent on it, and that it is closed.
pub data Signal {ℓ} (E : Type ℓ) : Type ℓ where
  carried : E → Signal E
  closed : Signal E

module _ {E : Type 0} where
  abbrev pub signals : ℕ → List (HubEffect E) → List (Signal E)
  signals k [] = []
  signals k (hub_send j e ∷ es) = if j == k then carried e ∷ signals k es else signals k es
  signals k (hub_close j ∷ es) = if j == k then closed ∷ signals k es else signals k es

  -- The events until the client's next request, or the end of the rounds, and then the close.
  abbrev pub until_next : ℕ → List (HubInput E) → List (Signal E)
  until_next c [] = closed ∷ []
  until_next c (event_in e ∷ is) = carried e ∷ until_next c is
  until_next c (request_in c' typ ∷ is) = if c == c' then closed ∷ [] else until_next c is

  signals-append :
      (k : ℕ) (es fs : List (HubEffect E)) → signals k (es ++ fs) ≡ signals k es ++ signals k fs
  signals-append k [] fs = refl
  signals-append k (hub_send j e ∷ es) fs = grind (arith, signals-append k es fs)
  signals-append k (hub_close j ∷ es) fs = grind (arith, signals-append k es fs)

  signals-send_none :
      (k : ℕ) (m : List (ℕ × ℕ)) (e : E) → uses k m ≡ 0 → signals k (send_all m e) ≡ []
  unfolding send_all
  signals-send_none k [] e h = refl
  signals-send_none k ((c, j) ∷ m) e h = grind (arith, signals-send_none k m e)

  signals-send_one :
      (k : ℕ) (m : List (ℕ × ℕ)) (e : E) → uses k m ≡ 1 → signals k (send_all m e) ≡ carried e ∷ []
  unfolding send_all
  signals-send_one k [] e h = absurd (omega (arith, h))
  signals-send_one k ((c, j) ∷ m) e h =
      grind (arith, signals-send_none k m e, signals-send_one k m e)

  signals-close_none :
      (k : ℕ) (m : List (ℕ × ℕ)) → uses k m ≡ 0 → signals k (close_all_subs {E = E} m) ≡ []
  unfolding close_all_subs
  signals-close_none k [] h = refl
  signals-close_none k ((c, j) ∷ m) h = grind (arith, signals-close_none k m)

  signals-close_one :
      (k : ℕ) (m : List (ℕ × ℕ)) → uses k m ≡ 1 → signals k (close_all_subs {E = E} m) ≡ closed ∷ []
  unfolding close_all_subs
  signals-close_one k [] h = absurd (omega (arith, h))
  signals-close_one k ((c, j) ∷ m) h = grind (arith, signals-close_none k m, signals-close_one k m)

  signals-close_effect :
      (k : ℕ) (o : Option ℕ)
      → signals k (close_effect {E = E} o) ≡ (if hit o k == 0 then [] else closed ∷ [])
  signals-close_effect k none = refl
  signals-close_effect k (some j) = ground arith

  -- A channel that is no subscriber's any more carries nothing and is not closed again.
  silent_channel :
      (k : ℕ) (is : List (HubInput E)) (h : Hub)
      → IsHub h
      → k < h.next_channel
      → uses k h.subs ≡ 0
      → signals k (hub_run is h) ≡ []
  unfolding hub_run hub_round hub_request
  silent_channel k [] h i m u = signals-close_none k h.subs u
  silent_channel k (event_in e ∷ is) h i m u =
      rw (signals-append k (send_all h.subs e) (hub_run is h))
        (rw (signals-send_none k h.subs e u) (silent_channel k is h i m u))
  silent_channel k (request_in c typ ∷ is) h i m u =
      let (i', m', left, others) = request_lem c k typ h i m in
      let h' = (hub_request c typ h).0 in
      rw (signals-append k (close_effect (get ℕ_discrete c h.subs)) (hub_run is h')) (
        rw (signals-close_effect k (get ℕ_discrete c h.subs))
          (rw (silent_channel k is h' i' m' (omega (arith, left, u))) (ground (arith, left, u))))

  -- A subscriber's channel carries, from any time on, exactly the events that come in until the
  -- client's next request or the end, in order; then it is closed, once, and nothing is sent on it
  -- after that.
  pub channel_signals :
      (c k : ℕ) (is : List (HubInput E)) (h : Hub)
      → IsHub h
      → k < h.next_channel
      → get ℕ_discrete c h.subs ≡ some k
      → signals k (hub_run is h) ≡ until_next c is
  unfolding hub_run hub_round hub_request
  channel_signals c k [] h i m g =
      signals-close_one k h.subs (omega (arith, i.once k, get-uses c k h.subs g))
  channel_signals c k (event_in e ∷ is) h i m g =
      rw (signals-append k (send_all h.subs e) (hub_run is h)) (
        rw (signals-send_one k h.subs e (omega (arith, i.once k, get-uses c k h.subs g)))
          (rw (channel_signals c k is h i m g) refl))
  channel_signals c k (request_in c' typ ∷ is) h i m g =
      let (i', m', left, others) = request_lem c' k typ h i m in
      let h' = (hub_request c' typ h).0 in
      rw (signals-append k (close_effect (get ℕ_discrete c' h.subs)) (hub_run is h')) (
        rw (signals-close_effect k (get ℕ_discrete c' h.subs)) (elim (ℕ_discrete c' c) [
          | yes p ↦
              let own : get ℕ_discrete c' h.subs ≡ some k =
                ap (λ i. get ℕ_discrete i h.subs) p ∙ g in
              let one : hit (get ℕ_discrete c' h.subs) k ≡ 1 = ground (arith, own) in
              rw (silent_channel k is h' i' m' (omega (arith, left, i.once k, one)))
                (ground (arith, p, one))
          | no n ↦
              let kept = others c n ∙ g in
              let zero_hit : hit (get ℕ_discrete c' h.subs) k ≡ 0 =
                omega (arith, left, i.once k, get-uses c k h'.subs kept) in
              rw (channel_signals c k is h' i' m' kept) (ground (arith, n, zero_hit))
        ]))
