-- ===== src/Peers/Removal.antt =====
-- server/sfu/peer_manager.go: which transports a room has, and what goes with them.
use native.Mathlib.Decide.{ℕ_discrete}
use peer_calls.Base.{
  ℕ, ◌≡◌, ◌≢◌, ◌⊎◌, ◌∙◌, refl, sym, arith, Bool, true, false, Option, none, some, ◌==◌, Bool-cases,
  Option-cases, inl, inr,
}
use peer_calls.Base.Dict.{get, get-delete_self, get-delete_ne, get-set_self}
use peer_calls.Base.Keys.{get-set_if}
use peer_calls.PubSub.Broker.{Transport, Calls}
use peer_calls.PubSub.Terminate.{IsSound, Forgets, terminate-Forgets}
use peer_calls.PubSub.Hub.{
  Hub, request_subscribe, request_unsubscribe, hub_request, subscribe_if, end_existing,
}
use peer_calls.PubSub.Delivery.{request-get}
use peer_calls.Peers.{
  PeerManager, transport_not_found, transport_changed, unsubscribe_from_events, remove_client,
  remove_existing, add_transport, remove_transport,
}

abbrev is_some : {A : Type 0} → Option A → Bool
is_some none = false
is_some (some a) = true

-- A client has a channel of the events exactly if it has a transport, each transport stands under
-- its own client, the published tracks are in order, and the goroutine of the events runs.
pub record IsRoom (m : PeerManager) : Type 0 where
  pub listed :
      (c : ℕ) → is_some (get ℕ_discrete c m.hub.subs) ≡ is_some (get ℕ_discrete c m.transports)
  pub own : (c : ℕ) (tr : Transport) → get ℕ_discrete c m.transports ≡ some tr → tr.client_id ≡ c
  pub sound : IsSound m.pubsub
  pub running : m.torn_down ≡ false

-- Nothing of a client is left: no transport, no channel, no track and no subscription; and the
-- transports and the channels of the others are as they were.
pub record Removes (calls : Calls) (c : ℕ) (m m' : PeerManager) : Type 0 where
  pub no_transport : get ℕ_discrete c m'.transports ≡ none
  pub no_channel : get ℕ_discrete c m'.hub.subs ≡ none
  pub forgets : Forgets calls c m.pubsub m'.pubsub
  pub other_transports :
      (c' : ℕ) → c ≢ c' → get ℕ_discrete c' m'.transports ≡ get ℕ_discrete c' m.transports
  pub other_channels :
      (c' : ℕ) → c ≢ c' → get ℕ_discrete c' m'.hub.subs ≡ get ℕ_discrete c' m.hub.subs
  pub still_running : m'.torn_down ≡ m.torn_down

unsubscribed : (c : ℕ) (h : Hub) → (hub_request c request_unsubscribe h).2 ≡ none
unfolding hub_request subscribe_if
unsubscribed c h = refl

module _ (calls : Calls) where
  remove_client-Removes :
      (c : ℕ) (m : PeerManager) → IsRoom m → Removes calls c m (remove_client calls c m).0
  unfolding remove_client unsubscribe_from_events
  remove_client-Removes c m h = rw h.running (record {
    no_transport = get-delete_self ℕ_discrete c m.transports;
    no_channel = grind (arith, request-get c c request_unsubscribe m.hub, unsubscribed c m.hub);
    forgets = terminate-Forgets calls c m.pubsub h.sound;
    other_transports = λ c' n. get-delete_ne ℕ_discrete c c' m.transports n;
    other_channels = λ c' n. grind (arith, request-get c c' request_unsubscribe m.hub);
    still_running = refl;
  })

  Removes-IsRoom : (c : ℕ) (m m' : PeerManager) → IsRoom m → Removes calls c m m' → IsRoom m'
  Removes-IsRoom c m m' h r = record {
    listed = λ c'. elim (ℕ_discrete c c') [
      | yes p ↦ grind (arith, p, r.no_transport, r.no_channel)
      | no n ↦ grind (arith, r.other_transports c' n, r.other_channels c' n, h.listed c')
    ];
    own = λ c' tr e. elim (ℕ_discrete c c') [
      | yes p ↦ cc (e, p, r.no_transport)
      | no n ↦ h.own c' tr (sym (r.other_transports c' n) ∙ e)
    ];
    sound = r.forgets.sound;
    running = r.still_running ∙ h.running;
  }

  -- What `Remove` does: a transport that is not there, or that another one has replaced, changes
  -- nothing; the one that is there is removed.
  pub remove_transport_lem :
      (tr : Transport) (m : PeerManager)
      → IsRoom m
      → let (m', effects, error) = remove_transport calls tr m in
        ((get ℕ_discrete tr.client_id m.transports ≡ none)
          × (m' ≡ m)
          × (error ≡ some transport_not_found))
        ⊎ (existing : Transport) × (get ℕ_discrete tr.client_id m.transports ≡ some existing)
          × (((existing.transport_id ≢ tr.transport_id)
                × (m' ≡ m)
                × (error ≡ some transport_changed))
              ⊎ ((existing.transport_id ≡ tr.transport_id)
                  × Removes calls tr.client_id m m'
                  × IsRoom m'
                  × (error ≡ none)))
  unfolding remove_transport
  remove_transport_lem tr m h = elim (Option-cases (get ℕ_discrete tr.client_id m.transports)) [
    | inl e ↦ inl (e, rw e refl, rw e refl)
    | inr (existing, e) ↦ inr (
      existing,
      e,
      rw e (elim (Bool-cases (existing.transport_id == tr.transport_id)) [
        | inl same ↦
            let r = remove_client-Removes tr.client_id m h in
            rw same (inr (ground (arith, same), r, Removes-IsRoom tr.client_id m _ h r, refl))
        | inr other ↦ rw other (inl (ground (arith, other), refl, refl))
      ]),
    )
  ]

  remove_existing-IsRoom :
      (tr : Transport) (m : PeerManager) (o : Option Transport)
      → get ℕ_discrete tr.client_id m.transports ≡ o
      → IsRoom m
      → IsRoom (remove_existing calls o tr.client_id m).0
  remove_existing-IsRoom tr m none e h = h
  remove_existing-IsRoom tr m (some existing) e h =
      Removes-IsRoom tr.client_id m _ h (remove_client-Removes tr.client_id m h)

  pub add_transport_lem :
      (tr : Transport) (m : PeerManager)
      → IsRoom m
      → let (m', effects, sub) = add_transport calls tr m in
        IsRoom m'
        × (get ℕ_discrete tr.client_id m'.transports ≡ some tr)
        × (k : ℕ) × (sub ≡ some k)
        × (get ℕ_discrete tr.client_id m'.hub.subs ≡ some k)
  unfolding add_transport
  add_transport_lem tr m h =
      let m1 =
        (remove_existing calls (get ℕ_discrete tr.client_id m.transports) tr.client_id m).0 in
      let h1 = remove_existing-IsRoom tr m (get ℕ_discrete tr.client_id m.transports) refl h in
      let k =
        (end_existing tr.client_id (get ℕ_discrete tr.client_id m1.hub.subs) m1.hub).next_channel in
      let joined : (hub_request tr.client_id request_subscribe m1.hub).2 ≡ some k =
        unfold hub_request subscribe_if in refl in
      rw h1.running (
        record {
          listed = λ c. grind (
            arith,
            request-get tr.client_id c request_subscribe m1.hub,
            joined,
            get-set_if tr.client_id c tr m1.transports,
            h1.listed c,
          );
          own =
              λ c tr' e. grind (arith, e, get-set_if tr.client_id c tr m1.transports, h1.own c tr');
          sound = h1.sound;
          running = refl;
        },
        get-set_self ℕ_discrete tr.client_id tr m1.transports,
        k,
        joined,
        grind (arith, request-get tr.client_id tr.client_id request_subscribe m1.hub, joined),
      )
