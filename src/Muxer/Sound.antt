-- ===== src/Muxer/Sound.antt =====
-- server/stringmux/stringmux.go: what holds between the rounds of `start`.
use peer_calls.Base.{
  ℕ, suc, ◌≤◌, ◌<◌, ◌≡◌, ◌≢◌, ◌⊎◌, ◌∙◌, refl, sym, ap, arith, true, false, Option, none, some, List,
  [], ◌∷◌, All, inl, inr,
}
use peer_calls.Base.Dict.{get, set, get-set_self, get-set_ne}
use peer_calls.Base.Entries.{get-All, set-All}
use peer_calls.Muxer.{
  Conn, Phase, selecting, offering, delivering, torn_down, Muxer, Effect, give_conn, offer_taken,
  Round, waits, panics, went, finish, create_conn, get_new_conn_at,
}
use peer_calls.Muxer.Conns.{
  IsOpen, Differs, Apart, IsOpen-next, IsOpen-Differs, set-Apart, close_conns_lem,
}

module _ {K : Type 0} (dec : Discrete K) where
  -- The connections in the map are open, under their names, and each is there once.
  pub record Kept (m : Muxer K) : Type 0 where
    pub opened : All (IsOpen m.is_closed m.next_conn) m.conns
    pub apart : Apart m.conns
    pub fresh : (r : ℕ) → m.next_conn ≤ r → m.is_closed r ≡ false

  -- An offered connection is new, and one that a packet waits for is the one of its name.
  abbrev pub SoundAt : Phase K → Muxer K → Type 0
  SoundAt selecting m = Kept m
  SoundAt (offering c bytes) m =
      Kept m
      × (get dec c.stream_id m.conns ≡ none)
      × (c.ref < m.next_conn)
      × (m.is_closed c.ref ≡ false)
      × All (Differs c.ref) m.conns
  SoundAt (delivering c bytes) m = Kept m × (get dec c.stream_id m.conns ≡ some c)
  SoundAt torn_down m = Unit

  abbrev pub IsSound : Muxer K → Type 0
  IsSound m = SoundAt m.phase m

  -- A connection is closed, or the one that its name leads to; at the end it is closed.
  abbrev pub KnownAt : Phase K → Conn K → Muxer K → Type 0
  KnownAt torn_down c m = m.is_closed c.ref ≡ true
  KnownAt _ c m = (m.is_closed c.ref ≡ true) ⊎ (get dec c.stream_id m.conns ≡ some c)

  abbrev pub IsKnown : Conn K → Muxer K → Type 0
  IsKnown c m = KnownAt m.phase c m

  -- The same, whatever the phase.
  abbrev pub ClosedOrFound : Conn K → Muxer K → Type 0
  ClosedOrFound c m = (m.is_closed c.ref ≡ true) ⊎ (get dec c.stream_id m.conns ≡ some c)

  pub KnownAt-in :
      (p : Phase K) (c : Conn K) (m : Muxer K) → p ≢ torn_down → ClosedOrFound c m → KnownAt p c m
  KnownAt-in selecting c m n k = k
  KnownAt-in (offering d bytes) c m n k = k
  KnownAt-in (delivering d bytes) c m n k = k
  KnownAt-in torn_down c m n k = absurd (n refl)

  pub KnownAt-out : (p : Phase K) (c : Conn K) (m : Muxer K) → KnownAt p c m → ClosedOrFound c m
  KnownAt-out selecting c m k = k
  KnownAt-out (offering d bytes) c m k = k
  KnownAt-out (delivering d bytes) c m k = k
  KnownAt-out torn_down c m k = inl k

  -- What is given out is known.
  abbrev pub Given : Muxer K → Effect K → Type 0
  Given m (give_conn c) = IsKnown c m
  Given m (offer_taken c) = IsKnown c m
  Given m _ = Unit

  abbrev pub Good : Muxer K → Round K → Type 0
  Good m waits = Unit
  Good m panics = ⊥
  Good m (went m' es) =
      IsSound m' × ((c : Conn K) → ClosedOrFound c m → IsKnown c m') × All (Given m') es

  pub phase-Kept : (p : Phase K) (m : Muxer K) → Kept m → Kept (record m { phase = p })
  phase-Kept p m h = record { opened = h.opened; apart = h.apart; fresh = h.fresh }

  -- A connection that was just made is added to the map.
  pub add-Kept :
      (c : Conn K) (m : Muxer K)
      → Kept m
      → c.ref < m.next_conn
      → m.is_closed c.ref ≡ false
      → All (Differs c.ref) m.conns
      → Kept (record m { conns = set dec c.stream_id c m.conns })
  add-Kept c m h r o d = record {
    opened =
        set-All dec (IsOpen m.is_closed m.next_conn) c.stream_id c m.conns h.opened (refl, r, o);
    apart = set-Apart dec c.stream_id c m.conns h.apart d;
    fresh = h.fresh;
  }

  pub next-Kept : (m : Muxer K) → Kept m → Kept (record m { next_conn = suc m.next_conn })
  next-Kept m h = record {
    opened = IsOpen-next m.is_closed m.next_conn m.conns h.opened;
    apart = h.apart;
    fresh = λ r le. h.fresh r (omega arith);
  }

  -- A name that has no connection is given one, and no other name changes.
  pub add-known :
      (c d : Conn K) (m : Muxer K)
      → get dec c.stream_id m.conns ≡ none
      → get dec d.stream_id m.conns ≡ some d
      → get dec d.stream_id (set dec c.stream_id c m.conns) ≡ some d
  add-known c d m e g = elim (dec c.stream_id d.stream_id) [
    | yes p ↦ cc (e, g, ap (λ i. get dec i m.conns) p)
    | no n ↦ get-set_ne dec c.stream_id d.stream_id c m.conns n ∙ g
  ]

  -- `finish` does not panic, and closes all there are.
  pub finish-Good :
      (m : Muxer K)
      → Kept m
      → (m' : Muxer K) × (finish m ≡ went (record m' { phase = torn_down }) [])
        × ((c : Conn K) → ClosedOrFound c m → m'.is_closed c.ref ≡ true)
  unfolding finish
  finish-Good m h =
      let (m', e, keeps, all) = close_conns_lem m.conns m (still m.conns h.opened) h.apart in
      (
        m',
        rw e refl,
        λ c k. elim k [
          | inl closed ↦ keeps c.ref closed
          | inr found ↦ get-All dec (λ f. m'.is_closed f.1.ref ≡ true) c.stream_id m.conns all found
        ],
      )
    where
      still :
          (cs : List (K × Conn K))
          → All (IsOpen m.is_closed m.next_conn) cs
          → All (λ f. m.is_closed f.1.ref ≡ false) cs
      still [] o = tt
      still (f ∷ cs) (o, os) = (o.2, still cs os)

  pub get_new_conn_at-Good :
      (k : K) (o : Option (Conn K)) (m : Muxer K)
      → Kept m
      → get dec k m.conns ≡ o
      → let (m', es) = get_new_conn_at dec k o m in
        Kept m' × (m'.phase ≡ m.phase) × (m'.is_closed ≡ m.is_closed)
  unfolding get_new_conn_at create_conn
  get_new_conn_at-Good k (some c) m h e = (h, refl, refl)
  get_new_conn_at-Good k none m h e = (
    add-Kept (record { ref = m.next_conn; stream_id = k })
        (record m { next_conn = suc m.next_conn }) (next-Kept m h) (omega arith)
        (h.fresh m.next_conn (omega arith))
        (IsOpen-Differs m.is_closed m.next_conn m.conns h.opened),
    refl,
    refl,
  )

  -- A connection that a name leads to stays; a name that had none and is not asked for has none.
  pub get_new_conn_at-keeps :
      (k : K) (o : Option (Conn K)) (m : Muxer K) (d : Conn K)
      → get dec k m.conns ≡ o
      → get dec d.stream_id m.conns ≡ some d
      → get dec d.stream_id (get_new_conn_at dec k o m).0.conns ≡ some d
  unfolding get_new_conn_at create_conn
  get_new_conn_at-keeps k (some c) m d e g = g
  get_new_conn_at-keeps k none m d e g =
      add-known (record { ref = m.next_conn; stream_id = k }) d m e g

  pub get_new_conn_at-others :
      (k : K) (o : Option (Conn K)) (m : Muxer K) (c : Conn K)
      → k ≢ c.stream_id
      → (get dec c.stream_id m.conns ≡ none) × (c.ref < m.next_conn) × All (Differs c.ref) m.conns
      → let m' = (get_new_conn_at dec k o m).0 in
        (get dec c.stream_id m'.conns ≡ none)
        × (c.ref < m'.next_conn)
        × All (Differs c.ref) m'.conns
  unfolding get_new_conn_at create_conn
  get_new_conn_at-others k (some w) m c n h = h
  get_new_conn_at-others k none m c n (e, lt, d) =
      let new : Conn K = record { ref = m.next_conn; stream_id = k } in
      (
        get-set_ne dec k c.stream_id new m.conns n ∙ e,
        omega arith,
        set-All dec (Differs c.ref) k new m.conns d (λ q. omega (arith, q)),
      )

  pub get_new_conn_at-Given :
      (k : K) (o : Option (Conn K)) (m m' : Muxer K)
      → (phase : m'.phase ≡ m.phase) → m.phase ≢ torn_down
      → m'.conns ≡ (get_new_conn_at dec k o m).0.conns
      → All (Given m') (get_new_conn_at dec k o m).1
  unfolding get_new_conn_at create_conn
  get_new_conn_at-Given k (some c) m m' p n e = (tt, tt)
  get_new_conn_at-Given k none m m' p n e =
      let new : Conn K = record { ref = m.next_conn; stream_id = k } in
      (
        KnownAt-in m'.phase new m' (λ q. n (sym p ∙ q))
            (inr (ap (get dec k) e ∙ get-set_self dec k new m.conns)),
        tt,
      )
