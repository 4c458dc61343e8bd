-- ===== src/Muxer/Rounds.antt =====
-- server/stringmux/stringmux.go: every round of `start` keeps the connections in order.
use mathlib.Core.Logic.{if_pos, if_neg}
use mathlib.Core.Path.{subst}
use peer_calls.Base.{
  ℕ, suc, ◌≡◌, ◌≢◌, ◌∙◌, refl, sym, ap, arith, true, false, Option, none, some, List, [], ◌∷◌, ◌==◌,
  ==_refl, ==_iff, Bool-cases, inl, inr,
}
use peer_calls.Base.Dict.{get, delete, get-set_self, get-delete_ne}
use peer_calls.Base.Entries.{get-All, delete-All}
use peer_calls.Muxer.{
  Conn, Phase, selecting, offering, delivering, torn_down, Muxer, Input, get_conn_request,
  remote_packet, remote_packets_end, close_conn_request, conn_accepted, packet_taken, conn_torndown,
  teardown, close_answered, went, mark, finish, create_conn, get_new_conn_at, get_new_conn,
  handle_packet_at, handle_close_at, keep_offered, select_round, offer_round, deliver_round,
  round_at,
}
use peer_calls.Muxer.Conns.{
  IsOpen, IsOpen-Differs, mark-IsOpen, delete-Apart, delete-Differs, close_conn_open, mark-other,
  mark-closed,
}
use peer_calls.Muxer.Sound.{
  Kept, SoundAt, IsSound, IsKnown, ClosedOrFound, KnownAt-in, Good, add-Kept, phase-Kept, next-Kept,
  finish-Good, add-known, get_new_conn_at-Good, get_new_conn_at-keeps, get_new_conn_at-others,
  get_new_conn_at-Given,
}

module _ {K : Type 0} (dec : Discrete K) where
  finish-round : (m : Muxer K) → Kept dec m → Good dec m (finish m)
  finish-round m h =
      let (m', e, closes) = finish-Good dec m h in subst (Good dec m) (sym e) (tt, closes, tt)

  keep_closed :
      (k : K) (o : Option (Conn K)) (m : Muxer K) (c : Conn K)
      → get dec k m.conns ≡ o
      → (get_new_conn_at dec k o m).0.is_closed ≡ m.is_closed
      → ClosedOrFound dec c m
      → ClosedOrFound dec c (get_new_conn_at dec k o m).0
  keep_closed k o m c e same (inl closed) = inl (ap (λ f. f c.ref) same ∙ closed)
  keep_closed k o m c e same (inr found) = inr (get_new_conn_at-keeps dec k o m c e found)

  -- A request for a connection in a phase that it leaves as it is.
  get_new_conn-Good :
      (k : K) (m : Muxer K)
      → Kept dec m
      → m.phase ≢ torn_down
      → (Kept dec (get_new_conn dec k m).0 → SoundAt dec m.phase (get_new_conn dec k m).0)
      → let (m', es) = get_new_conn dec k m in Good dec m (went m' es)
  unfolding get_new_conn
  get_new_conn-Good k m h n sound =
      let o = get dec k m.conns in
      let m' = (get_new_conn_at dec k o m).0 in
      let (kept, phase, closed) = get_new_conn_at-Good dec k o m h refl in
      (
        subst (λ p. SoundAt dec p m') (sym phase) (sound kept),
        λ c known.
            KnownAt-in dec m'.phase c m' (λ q. n (sym phase ∙ q))
              (keep_closed k o m c refl closed known),
        get_new_conn_at-Given dec k o m m' phase n refl,
      )

  handle_packet_at-Good :
      (k : K) (bytes : List ℕ) (o : Option (Conn K)) (m : Muxer K)
      → Kept dec m
      → get dec k m.conns ≡ o
      → Good dec m (went (handle_packet_at dec k bytes o m) [])
  unfolding handle_packet_at create_conn
  handle_packet_at-Good k bytes (some c) m h e =
      let name = (get-All dec (IsOpen m.is_closed m.next_conn) k m.conns h.opened e).0 in
      (
        (phase-Kept dec (delivering c bytes) m h, ap (λ i. get dec i m.conns) name ∙ e),
        (λ d known. known),
        tt,
      )
  handle_packet_at-Good k bytes none m h e = (
    (
      phase-Kept dec (offering (record { ref = m.next_conn; stream_id = k }) bytes)
          (record m { next_conn = suc m.next_conn }) (next-Kept dec m h),
      e,
      omega arith,
      h.fresh m.next_conn (omega arith),
      IsOpen-Differs m.is_closed m.next_conn m.conns h.opened,
    ),
    (λ d known. known),
    tt,
  )

  -- Closing the connection that a name leads to.
  close_found :
      (c : Conn K) (m : Muxer K)
      → Kept dec m
      → m.phase ≡ selecting
      → get dec c.stream_id m.conns ≡ some c
      → let m' : Muxer K = record m {
        conns = delete dec c.stream_id m.conns;
        is_closed = mark c.ref true m.is_closed;
      } in
        Good dec m (went m' (close_answered c ∷ []))
  close_found c m h p e =
      let rest = delete dec c.stream_id m.conns in
      let differs = delete-Differs dec c.stream_id c m.conns h.apart e in
      let made = (get-All dec (IsOpen m.is_closed m.next_conn) c.stream_id m.conns h.opened e).1 in
      let m' : Muxer K = record m { conns = rest; is_closed = mark c.ref true m.is_closed } in
      let kept : Kept dec m' = record {
        opened =
            mark-IsOpen c.ref m.is_closed m.next_conn rest differs
              (delete-All dec (IsOpen m.is_closed m.next_conn) c.stream_id m.conns h.opened);
        apart = delete-Apart dec c.stream_id m.conns h.apart;
        fresh = λ r le.
            mark-other c.ref r true m.is_closed (λ q. omega (arith, q, made)) ∙ h.fresh r le;
      } in
      (
        subst (λ q. SoundAt dec q m') (sym p) kept,
        λ d known.
            KnownAt-in dec m.phase d m' (λ q. cc (p, q))
              (elim known [
                | inl closed ↦ inl (mark-closed c.ref d.ref m.is_closed closed)
                | inr found ↦ elim (dec c.stream_id d.stream_id) [
                  | yes same ↦
                      let one : c ≡ d = cc (e, found, ap (λ i. get dec i m.conns) same) in
                      inl (
                        subst (λ x. mark c.ref true m.is_closed x.ref ≡ true) one
                          (rw (==_refl c.ref) refl))
                  | no other ↦ inr (get-delete_ne dec c.stream_id d.stream_id m.conns other ∙ found)
                ]
              ]),
        (tt, tt),
      )

  handle_close_at-Good :
      (c : Conn K) (o : Option (Conn K)) (m : Muxer K)
      → Kept dec m
      → m.phase ≡ selecting
      → get dec c.stream_id m.conns ≡ o
      → Good dec m (handle_close_at dec c o m)
  unfolding handle_close_at
  handle_close_at-Good c none m h p e = (
    subst (λ q. SoundAt dec q m) (sym p) h,
    (λ d known. KnownAt-in dec m.phase d m (λ q. cc (p, q)) known),
    (tt, tt),
  )
  handle_close_at-Good c (some d) m h p e = elim (Bool-cases (d.ref == c.ref)) [
    | inl same ↦
        let (name, _, unclosed) =
          get-All dec (IsOpen m.is_closed m.next_conn) c.stream_id m.conns h.opened e in
        let one : d ≡ c = ground (arith, name, (==_iff d.ref c.ref).0 same) in
        subst (λ x. Good dec m (handle_close_at dec c (some x) m)) (sym one)
          (rw (==_refl c.ref) (
            rw
              (close_conn_open c (record m { conns = delete dec c.stream_id m.conns })
                (subst (λ x. m.is_closed x.ref ≡ false) one unclosed))
              (close_found c m h p (subst (λ x. get dec c.stream_id m.conns ≡ some x) one e))))
    | inr other ↦ rw other (
      subst (λ q. SoundAt dec q m) (sym p) h,
      (λ d known. KnownAt-in dec m.phase d m (λ q. cc (p, q)) known),
      (tt, tt),
    )
  ]

  select_round-Good :
      (i : Input K) (m : Muxer K)
      → Kept dec m
      → m.phase ≡ selecting
      → Good dec m (select_round dec i m)
  unfolding select_round
  select_round-Good (get_conn_request k) m h p =
      get_new_conn-Good k m h (λ q. cc (p, q))
        (λ kept. subst (λ q. SoundAt dec q (get_new_conn dec k m).0) (sym p) kept)
  select_round-Good (remote_packet k bytes) m h p =
      handle_packet_at-Good k bytes (get dec k m.conns) m h refl
  select_round-Good remote_packets_end m h p = finish-round m h
  select_round-Good (close_conn_request c) m h p =
      handle_close_at-Good c (get dec c.stream_id m.conns) m h p refl
  select_round-Good conn_accepted m h p = tt
  select_round-Good packet_taken m h p = tt
  select_round-Good conn_torndown m h p = tt
  select_round-Good teardown m h p = finish-round m h

  -- The offered connection is put in the map.
  keep_offered-Good :
      (c : Conn K) (bytes : List ℕ) (m : Muxer K)
      → SoundAt dec (offering c bytes) m
      → let m' = keep_offered dec c bytes m in
        IsSound dec m'
        × ((d : Conn K) → ClosedOrFound dec d m → IsKnown dec d m')
        × IsKnown dec c m'
  keep_offered-Good c bytes m (h, absent, made, unclosed, differs) =
      let here = get-set_self dec c.stream_id c m.conns in
      (
        (
          add-Kept dec c (record m { phase = delivering c bytes })
              (phase-Kept dec (delivering c bytes) m h) made unclosed differs,
          here,
        ),
        (λ d known. elim known [
          | inl closed ↦ inl closed
          | inr found ↦ inr (add-known dec c d m absent found)
        ]),
        inr here,
      )

  offer_round-Good :
      (c : Conn K) (bytes : List ℕ) (i : Input K) (m : Muxer K)
      → SoundAt dec (offering c bytes) m
      → m.phase ≡ offering c bytes
      → Good dec m (offer_round dec c bytes i m)
  unfolding offer_round
  offer_round-Good c bytes (get_conn_request k) m s p = elim (dec k c.stream_id) [
    | yes e ↦
        let (sound, knows, given) = keep_offered-Good c bytes m s in
        rw (if_pos (dec k c.stream_id) e) (sound, knows, (given, tt))
    | no n ↦
        let (h, absent, made, unclosed, differs) = s in
        let o = get dec k m.conns in
        let m' = (get_new_conn dec k m).0 in
        let closed = (get_new_conn_at-Good dec k o m h refl).2 in
        let (absent', made', differs') =
          get_new_conn_at-others dec k o m c n (absent, made, differs) in
        rw (if_neg (dec k c.stream_id) n) (
          get_new_conn-Good k m h (λ q. cc (p, q))
            (λ kept.
              subst (λ q. SoundAt dec q m') (sym p)
                (unfold get_new_conn in
                  (kept, absent', made', ap (λ f. f c.ref) closed ∙ unclosed, differs'))))
  ]
  offer_round-Good c bytes (remote_packet k more) m s p = tt
  offer_round-Good c bytes remote_packets_end m s p = tt
  offer_round-Good c bytes (close_conn_request d) m s p = tt
  offer_round-Good c bytes conn_accepted m s p =
      let (sound, knows, given) = keep_offered-Good c bytes m s in (sound, knows, (given, tt))
  offer_round-Good c bytes packet_taken m s p = tt
  offer_round-Good c bytes conn_torndown m s p = tt
  offer_round-Good c bytes teardown m s p = finish-round m s.0

  deliver_round-Good :
      (c : Conn K) (bytes : List ℕ) (i : Input K) (m : Muxer K)
      → SoundAt dec (delivering c bytes) m
      → Good dec m (deliver_round dec c bytes i m)
  unfolding deliver_round
  deliver_round-Good c bytes (get_conn_request k) m s = tt
  deliver_round-Good c bytes (remote_packet k more) m s = tt
  deliver_round-Good c bytes remote_packets_end m s = tt
  deliver_round-Good c bytes (close_conn_request d) m s = tt
  deliver_round-Good c bytes conn_accepted m s = tt
  deliver_round-Good c bytes packet_taken m (h, e) =
      rw (get-All dec (IsOpen m.is_closed m.next_conn) c.stream_id m.conns h.opened e).2
        (phase-Kept dec selecting m h, (λ d known. known), (tt, tt))
  deliver_round-Good c bytes conn_torndown m (h, e) =
      rw (get-All dec (IsOpen m.is_closed m.next_conn) c.stream_id m.conns h.opened e).2 tt
  deliver_round-Good c bytes teardown m (h, e) = finish-round m h

  pub round_at-Good :
      (p : Phase K) (i : Input K) (m : Muxer K)
      → SoundAt dec p m
      → m.phase ≡ p
      → Good dec m (round_at dec p i m)
  unfolding round_at
  round_at-Good selecting i m s e = select_round-Good i m s e
  round_at-Good (offering c bytes) i m s e = offer_round-Good c bytes i m s e
  round_at-Good (delivering c bytes) i m s e = deliver_round-Good c bytes i m s
  round_at-Good torn_down i m s e = tt
