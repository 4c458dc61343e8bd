-- ===== src/Muxer/Packets.antt =====
-- server/stringmux/stringmux.go: where the packets go in a run of `start`.
use mathlib.Core.Logic.{ite, if_pos, if_neg}
use mathlib.Core.Path.{subst}
use mathlib.Core.List.{append_assoc, append-nil}
use peer_calls.Base.{
  ℕ, ◌≡◌, ◌≢◌, ◌⊎◌, ◌∙◌, refl, sym, ap, Option, none, some, List, [], ◌∷◌, ◌++◌, ◌==◌, Bool-cases,
  inl, inr,
}
use peer_calls.Base.Dict.{get}
use peer_calls.Base.Entries.{get-All}
use peer_calls.Muxer.{
  Conn, Phase, selecting, offering, delivering, torn_down, Muxer, Input, get_conn_request,
  remote_packet, remote_packets_end, close_conn_request, conn_accepted, packet_taken, conn_torndown,
  teardown, Effect, deliver, Round, waits, panics, went, and_then, new_muxer, close_conn, finish,
  create_conn, get_new_conn_at, get_new_conn, handle_packet_at, handle_close_at, select_round,
  offer_round, deliver_round, round_at, run,
}
use peer_calls.Muxer.Conns.{IsOpen}
use peer_calls.Muxer.Sound.{Kept, SoundAt, IsSound, Good, finish-Good}
use peer_calls.Muxer.Rounds.{round_at-Good}

module _ {K : Type 0} (dec : Discrete K) (name : K) where
  -- A packet, if it is one of the name.
  abbrev pub if_named : K → List ℕ → List (List ℕ)
  if_named k bytes = ite (dec k name) (bytes ∷ []) []

  abbrev pub received : Input K → List (List ℕ)
  received (remote_packet k bytes) = if_named k bytes
  received _ = []

  abbrev pub received_all : List (Input K) → List (List ℕ)
  received_all [] = []
  received_all (i ∷ is) = received i ++ received_all is

  abbrev pub handed : Effect K → List (List ℕ)
  handed (deliver c bytes) = if_named c.stream_id bytes
  handed _ = []

  -- The packets that the connections of the name were handed, in order.
  abbrev pub handed_all : List (Effect K) → List (List ℕ)
  handed_all [] = []
  handed_all (e ∷ es) = handed e ++ handed_all es

  -- The packet that waits for its connection.
  abbrev pub pending : Phase K → List (List ℕ)
  pending (offering c bytes) = if_named c.stream_id bytes
  pending (delivering c bytes) = if_named c.stream_id bytes
  pending _ = []

  handed_all-append :
      (es fs : List (Effect K)) → handed_all (es ++ fs) ≡ handed_all es ++ handed_all fs
  handed_all-append [] fs = refl
  handed_all-append (e ∷ es) fs =
      ap (λ r. handed e ++ r) (handed_all-append es fs)
      ∙ sym (append_assoc (handed e) (handed_all es) (handed_all fs))

  -- What was to come was handed over or still waits, unless the loop has ended.
  abbrev pub Passes : List (List ℕ) → Round K → Type 0
  Passes packets (went m es) = m.phase ≢ torn_down → handed_all es ++ pending m.phase ≡ packets
  Passes packets _ = Unit

  get_new_conn-Passes :
      (k : K) (m : Muxer K)
      → let (m', es) = get_new_conn dec k m in Passes (pending m.phase) (went m' es)
  unfolding get_new_conn get_new_conn_at create_conn
  get_new_conn-Passes k m = go (get dec k m.conns)
    where
      go :
          (o : Option (Conn K))
          → let (m', es) = get_new_conn_at dec k o m in Passes (pending m.phase) (went m' es)
      go (some c) n = refl
      go none n = refl

  finish-Passes : (m : Muxer K) (packets : List (List ℕ)) → Kept dec m → Passes packets (finish m)
  finish-Passes m packets h =
      let (m', e, closes) = finish-Good dec m h in
      subst (Passes packets) (sym e) (λ n. absurd (n refl))

  handle_packet_at-Passes :
      (k : K) (bytes : List ℕ) (o : Option (Conn K)) (m : Muxer K)
      → Kept dec m
      → get dec k m.conns ≡ o
      → Passes (if_named k bytes) (went (handle_packet_at dec k bytes o m) [])
  unfolding handle_packet_at create_conn
  handle_packet_at-Passes k bytes (some c) m h e = λ n.
      ap (λ i. if_named i bytes)
        (get-All dec (IsOpen m.is_closed m.next_conn) k m.conns h.opened e).0
  handle_packet_at-Passes k bytes none m h e = λ n. refl

  handle_close_at-Passes :
      (c : Conn K) (o : Option (Conn K)) (m : Muxer K)
      → m.phase ≡ selecting
      → Passes [] (handle_close_at dec c o m)
  unfolding handle_close_at close_conn
  handle_close_at-Passes c none m p = λ n. ap pending p
  handle_close_at-Passes c (some d) m p = elim (Bool-cases (d.ref == c.ref)) [
    | inr other ↦ rw other (λ n. ap pending p)
    | inl same ↦ rw same (elim (Bool-cases (m.is_closed d.ref)) [
      | inl closed ↦ rw closed tt
      | inr unclosed ↦ rw unclosed (λ n. ap pending p)
    ])
  ]

  select_round-Passes :
      (i : Input K) (m : Muxer K)
      → Kept dec m
      → m.phase ≡ selecting
      → Passes (received i) (select_round dec i m)
  unfolding select_round
  select_round-Passes (get_conn_request k) m h p = λ n. get_new_conn-Passes k m n ∙ ap pending p
  select_round-Passes (remote_packet k bytes) m h p =
      handle_packet_at-Passes k bytes (get dec k m.conns) m h refl
  select_round-Passes remote_packets_end m h p = finish-Passes m [] h
  select_round-Passes (close_conn_request c) m h p =
      handle_close_at-Passes c (get dec c.stream_id m.conns) m p
  select_round-Passes conn_accepted m h p = tt
  select_round-Passes packet_taken m h p = tt
  select_round-Passes conn_torndown m h p = tt
  select_round-Passes teardown m h p = finish-Passes m [] h

  offer_round-Passes :
      (c : Conn K) (bytes : List ℕ) (i : Input K) (m : Muxer K)
      → Kept dec m
      → m.phase ≡ offering c bytes
      → Passes (if_named c.stream_id bytes ++ received i) (offer_round dec c bytes i m)
  unfolding offer_round
  offer_round-Passes c bytes (get_conn_request k) m h p = elim (dec k c.stream_id) [
    | yes e ↦ rw (if_pos (dec k c.stream_id) e) (λ n. sym (append-nil (if_named c.stream_id bytes)))
    | no ne ↦ rw (if_neg (dec k c.stream_id) ne) (λ n.
        get_new_conn-Passes k m n ∙ ap pending p ∙ sym (append-nil (if_named c.stream_id bytes)))
  ]
  offer_round-Passes c bytes (remote_packet k more) m h p = tt
  offer_round-Passes c bytes remote_packets_end m h p = tt
  offer_round-Passes c bytes (close_conn_request d) m h p = tt
  offer_round-Passes c bytes conn_accepted m h p =
      λ n. sym (append-nil (if_named c.stream_id bytes))
  offer_round-Passes c bytes packet_taken m h p = tt
  offer_round-Passes c bytes conn_torndown m h p = tt
  offer_round-Passes c bytes teardown m h p = finish-Passes m (if_named c.stream_id bytes ++ []) h

  deliver_round-Passes :
      (c : Conn K) (bytes : List ℕ) (i : Input K) (m : Muxer K)
      → SoundAt dec (delivering c bytes) m
      → Passes (if_named c.stream_id bytes ++ received i) (deliver_round dec c bytes i m)
  unfolding deliver_round
  deliver_round-Passes c bytes (get_conn_request k) m s = tt
  deliver_round-Passes c bytes (remote_packet k more) m s = tt
  deliver_round-Passes c bytes remote_packets_end m s = tt
  deliver_round-Passes c bytes (close_conn_request d) m s = tt
  deliver_round-Passes c bytes conn_accepted m s = tt
  deliver_round-Passes c bytes packet_taken m (h, e) =
      rw (get-All dec (IsOpen m.is_closed m.next_conn) c.stream_id m.conns h.opened e).2
        (λ n. append-nil (if_named c.stream_id bytes ++ []))
  deliver_round-Passes c bytes conn_torndown m (h, e) =
      rw (get-All dec (IsOpen m.is_closed m.next_conn) c.stream_id m.conns h.opened e).2 tt
  deliver_round-Passes c bytes teardown m (h, e) =
      finish-Passes m (if_named c.stream_id bytes ++ []) h

  round_at-Passes :
      (p : Phase K) (i : Input K) (m : Muxer K)
      → SoundAt dec p m
      → m.phase ≡ p
      → Passes (pending p ++ received i) (round_at dec p i m)
  unfolding round_at
  round_at-Passes selecting i m s e = select_round-Passes i m s e
  round_at-Passes (offering c bytes) i m s e = offer_round-Passes c bytes i m s.0 e
  round_at-Passes (delivering c bytes) i m s e = deliver_round-Passes c bytes i m s
  round_at-Passes torn_down i m s e = tt

  abbrev IsDown : Round K → Type 0
  IsDown (went m es) = m.phase ≡ torn_down
  IsDown _ = Unit

  -- Nothing is received after the end.
  run-IsDown : (is : List (Input K)) (m : Muxer K) → m.phase ≡ torn_down → IsDown (run dec is m)
  unfolding run round_at
  run-IsDown [] m p = p
  run-IsDown (i ∷ is) m p =
      let waiting : round_at dec m.phase i m ≡ waits = ap (λ q. round_at dec q i m) p in
      rw (waiting, run) tt

  IsDown-Passes :
      (es : List (Effect K)) (r : Round K) (packets : List (List ℕ))
      → IsDown r
      → Passes packets (and_then dec es r)
  IsDown-Passes es waits packets d = tt
  IsDown-Passes es panics packets d = tt
  IsDown-Passes es (went m fs) packets d = λ n. absurd (n d)

  phase_cases : (p : Phase K) → (p ≡ torn_down) ⊎ (p ≢ torn_down)
  phase_cases selecting = inr (λ e. cc)
  phase_cases (offering c bytes) = inr (λ e. cc)
  phase_cases (delivering c bytes) = inr (λ e. cc)
  phase_cases torn_down = inl refl

  and_then-Passes :
      (es : List (Effect K)) (r : Round K) (waiting before later : List (List ℕ))
      → handed_all es ++ waiting ≡ before
      → Passes (waiting ++ later) r
      → Passes (before ++ later) (and_then dec es r)
  and_then-Passes es waits waiting before later e h = tt
  and_then-Passes es panics waiting before later e h = tt
  and_then-Passes es (went m fs) waiting before later e h = λ n.
      ap (λ r. r ++ pending m.phase) (handed_all-append es fs)
      ∙ append_assoc (handed_all es) (handed_all fs) (pending m.phase)
      ∙ ap (λ r. handed_all es ++ r) (h n)
      ∙ sym (append_assoc (handed_all es) waiting later)
      ∙ ap (λ r. r ++ later) e

  -- A round, and then the rest of the run.
  through :
      (is : List (Input K)) (r : Round K) (before later : List (List ℕ))
      → Passes before r
      → ((m' : Muxer K) (es : List (Effect K))
          → r ≡ went m' es
          → Passes (pending m'.phase ++ later) (run dec is m'))
      → Passes (before ++ later) (elim r [
        | waits ↦ waits
        | panics ↦ panics
        | went m' es ↦ and_then dec es (run dec is m')
      ])
  through is waits before later h rest = tt
  through is panics before later h rest = tt
  through is (went m' es) before later h rest = elim (phase_cases m'.phase) [
    | inl down ↦ IsDown-Passes es (run dec is m') (before ++ later) (run-IsDown is m' down)
    | inr up ↦
        and_then-Passes es (run dec is m') (pending m'.phase) before later (h up) (rest m' es refl)
  ]

  -- From any state in order, while the loop runs: the packets that the connections of a name are
  -- handed, with one that may wait, are those that were received for the name, in their order.
  packets_pass :
      (is : List (Input K)) (m : Muxer K)
      → IsSound dec m
      → Passes (pending m.phase ++ received_all is) (run dec is m)
  unfolding run
  packets_pass [] m s = λ n. sym (append-nil (pending m.phase))
  packets_pass (i ∷ is) m s =
      let good = round_at-Good dec m.phase i m s refl in
      subst (λ q. Passes q (run dec (i ∷ is) m))
        (append_assoc (pending m.phase) (received i) (received_all is))
        (through is (round_at dec m.phase i m) (pending m.phase ++ received i) (received_all is)
          (round_at-Passes m.phase i m s refl)
          (λ m' es e. packets_pass is m' (subst (Good dec m) e good).0))

  -- While the loop of a muxer runs: the packets that the connections of a name were handed, with one
  -- that may still wait for its connection, are those that were received for the name, all of them
  -- and in their order.
  pub packets_arrive :
      (is : List (Input K)) (m : Muxer K) (es : List (Effect K))
      → run dec is new_muxer ≡ went m es
      → m.phase ≢ torn_down
      → handed_all es ++ pending m.phase ≡ received_all is
  unfolding new_muxer
  packets_arrive is m es e n =
      subst (Passes (received_all is)) e
        (packets_pass is new_muxer (record { opened = tt; apart = tt; fresh = λ r le. refl })) n
