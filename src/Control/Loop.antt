-- ===== src/Control/Loop.antt =====
-- server/udptransport2/factory.go: the event loop of `Factory.start` with its pings, and what is
-- done when it returns. The clock is a number that does not decrease; a duration is a number.
use peer_calls.Base.{
  ap, ℕ, ◌+◌, ◌-◌, ◌≡◌, ◌≢◌, ◌<◌, ◌∙◌, refl, Bool, true, false, Option, none, some, List, [], ◌∷◌,
  ◌++◌, All, if◌then◌else◌, ltb, ◌&&◌, not, arith, Bool-cases, inl, inr,
}
use peer_calls.Control.{LocalEvent, RemoteEvent}
use peer_calls.Control.Factory.{Slot, Env, Effect, close_transport, handle_remote, handle_local}
use peer_calls.Control.Slots.{AllSound, handle_remote-AllSound, handle_local-AllSound}

-- What the `select` receives: a tick of the ping ticker at a time, with whether the ping can be
-- sent; a control event at a time, with its ping flag and its remote event; the end of the control
-- events; a local event; a connection that nobody expects, or the end of these; the teardown.
pub data Input {ℓ} (RoomId : Type ℓ) : Type ℓ where
  ping_tick : ℕ → Bool → Input RoomId
  control_event : ℕ → Env → Bool → Option (RoomId × RemoteEvent) → Input RoomId
  control_end : Input RoomId
  local_event : Env → RoomId → LocalEvent → Input RoomId
  unexpected_conn : Bool → Input RoomId
  teardown : Input RoomId

pub record Loop {ℓ} (RoomId : Type ℓ) : Type ℓ where
  pub transports : List (RoomId × Slot)
  pub last_recv_ping_time : ℕ

pub data LoopEffect {ℓ} (RoomId : Type ℓ) : Type ℓ where
  ping_sent : LoopEffect RoomId
  on_stream : RoomId → List Effect → LoopEffect RoomId

module _ {ℓ} {RoomId : Type ℓ} (dec : Discrete RoomId) (destroy_timeout : ℕ) where
  -- `d > 0 && now.Sub(lastRecvPingTime) > d`
  abbrev pub timed_out : ℕ → Loop RoomId → Bool
  timed_out now l = ltb 0 destroy_timeout && ltb destroy_timeout (now - l.last_recv_ping_time)

  on_tick : ℕ → Bool → Loop RoomId → Loop RoomId × List (LoopEffect RoomId) × Bool
  on_tick now send_ok l =
      if timed_out now l
      then (l, [], false)
      else (if send_ok then (l, ping_sent ∷ [], true) else (l, [], false))

  on_remote :
      Env
      → Option (RoomId × RemoteEvent)
      → Loop RoomId
      → Loop RoomId × List (LoopEffect RoomId) × Bool
  on_remote env none l = (l, [], true)
  on_remote env (some (r, e)) l =
      let (m, es, go_on) = handle_remote dec env r e l.transports in
      (record l { transports = m }, on_stream r es ∷ [], go_on)

  -- One round of the loop; false where `start` returns.
  unfoldable pub select_round :
      Input RoomId → Loop RoomId → Loop RoomId × List (LoopEffect RoomId) × Bool
  unfolding on_tick on_remote
  select_round (ping_tick now send_ok) l = on_tick now send_ok l
  select_round (control_event now env ping rce) l =
      on_remote env rce (if ping then record l { last_recv_ping_time = now } else l)
  select_round control_end l = (l, [], false)
  select_round (local_event env r e) l =
      let (m, es, go_on) = handle_local dec env r e l.transports in
      (record l { transports = m }, on_stream r es ∷ [], go_on)
  select_round (unexpected_conn ok) l = (l, [], ok)
  select_round teardown l = (l, [], false)

  unfoldable pub rounds : List (Input RoomId) → Loop RoomId → Loop RoomId × Bool
  rounds [] l = (l, true)
  rounds (i ∷ is) l =
      let (l', _, go_on) = select_round i l in
      let rest = rounds is l' in if go_on then rest else (l', false)

  -- The transports that the deferred function closes.
  unfoldable pub close_all : List (RoomId × Slot) → List (LoopEffect RoomId)
  close_all [] = []
  close_all ((r, s) ∷ m) = elim s.transport [
    | none ↦ close_all m
    | some t ↦ on_stream r (close_transport t ∷ []) ∷ close_all m
  ]

  -- Inputs whose environment can create transports, and inputs without a ping.
  abbrev pub CanCreate : Input RoomId → Type 0
  CanCreate (control_event now env ping rce) = env.new_transport ≢ none
  CanCreate (local_event env r e) = env.new_transport ≢ none
  CanCreate _ = Unit

  abbrev pub is_quiet : Input RoomId → Bool
  is_quiet (control_event now env ping rce) = not ping
  is_quiet _ = true

  if-transports :
      (b : Bool) (now : ℕ) (l : Loop RoomId)
      → (if b then record l { last_recv_ping_time = now } else l).transports ≡ l.transports
  if-transports true now l = refl
  if-transports false now l = refl

  on_tick-transports :
      (now : ℕ) (ok : Bool) (l : Loop RoomId)
      → ((on_tick now ok l).0 ≡ l) × ((on_tick now ok l).2 ≡ (not (timed_out now l) && ok))
  unfolding on_tick
  on_tick-transports now ok l = go (timed_out now l) ok
    where
      go :
          (b ok : Bool)
          → let o : Loop RoomId × List (LoopEffect RoomId) × Bool =
              (if b
                then (l, [], false)
                else (if ok then (l, ping_sent ∷ [], true) else (l, [], false))) in
            (o.0 ≡ l) × (o.2 ≡ (not b && ok))
      go true true = (refl, refl)
      go true false = (refl, refl)
      go false true = (refl, refl)
      go false false = (refl, refl)

  select_round-AllSound :
      (i : Input RoomId) (l : Loop RoomId)
      → CanCreate i
      → AllSound dec l.transports
      → AllSound dec (select_round i l).0.transports
  unfolding select_round on_remote
  select_round-AllSound (ping_tick now ok) l c h = rw (on_tick-transports now ok l).0 h
  select_round-AllSound (control_event now env ping none) l c h = rw (if-transports ping now l) h
  select_round-AllSound (control_event now env ping (some (r, e))) l c h =
      rw (if-transports ping now l) (handle_remote-AllSound dec env r e l.transports c h)
  select_round-AllSound control_end l c h = h
  select_round-AllSound (local_event env r e) l c h =
      handle_local-AllSound dec env r e l.transports c h
  select_round-AllSound (unexpected_conn ok) l c h = h
  select_round-AllSound teardown l c h = h

  -- While transports can be created: whatever the event loop receives, also in the round in which
  -- it ends, every stream's slot stays sound: it has a transport exactly while its tracker is not
  -- closed.
  pub rounds-AllSound :
      (is : List (Input RoomId)) (l : Loop RoomId)
      → All CanCreate is
      → AllSound dec l.transports
      → AllSound dec (rounds is l).0.transports
  unfolding rounds
  rounds-AllSound [] l c h = h
  rounds-AllSound (i ∷ is) l (c, cs) h =
      let h' = select_round-AllSound i l c h in
      elim (Bool-cases (select_round i l).2) [
        | inl e ↦ rw e (rounds-AllSound is (select_round i l).0 cs h')
        | inr e ↦ rw e h'
      ]

  quiet_round :
      (i : Input RoomId) (l : Loop RoomId)
      → is_quiet i ≡ true
      → (select_round i l).0.last_recv_ping_time ≡ l.last_recv_ping_time
  unfolding select_round on_remote
  quiet_round (ping_tick now ok) l q =
      ap (λ (r : Loop RoomId). r.last_recv_ping_time) (on_tick-transports now ok l).0
  quiet_round (control_event now env true rce) l q = cc
  quiet_round (control_event now env false none) l q = refl
  quiet_round (control_event now env false (some (r, e))) l q = refl
  quiet_round control_end l q = refl
  quiet_round (local_event env r e) l q = refl
  quiet_round (unexpected_conn ok) l q = refl
  quiet_round teardown l q = refl

  -- Where the timeout is set and nothing that is received is a ping: the loop has ended by the
  -- first tick that comes more than the timeout after the last ping, whatever else is received.
  pub silent_peer_ends :
      (is : List (Input RoomId)) (now : ℕ) (ok : Bool) (more : List (Input RoomId))
      (l : Loop RoomId)
      → 0 < destroy_timeout
      → All (λ i. is_quiet i ≡ true) is
      → l.last_recv_ping_time + destroy_timeout < now
      → (rounds (is ++ (ping_tick now ok ∷ more)) l).1 ≡ false
  unfolding rounds
  silent_peer_ends [] now ok more l pos q late =
      let late' : timed_out now l ≡ true = ground arith in
      let e : (select_round (ping_tick now ok) l).2 ≡ false =
        unfold select_round in (on_tick-transports now ok l).1 ∙ rw late' refl in
      rw e refl
  silent_peer_ends (i ∷ is) now ok more l pos (q, qs) late =
      let same = quiet_round i l q in
      elim (Bool-cases (select_round i l).2) [
        | inl e ↦ rw e (
            silent_peer_ends is now ok more (select_round i l).0 pos qs (omega (arith, same, late)))
        | inr e ↦ rw e refl
      ]
