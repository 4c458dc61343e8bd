-- ===== src/Muxer.antt =====
-- server/stringmux/stringmux.go: the loop `start` of a `StringMux`, and the connections of
-- server/stringmux/conn.go that it makes. The loop of server/udpmux/udpmux.go is the same over remote
-- addresses, so the names of the connections are of any type with a decision of equality. What the
-- `select` of the present phase receives is an input; an input that no case of it receives waits.
pub mod Conns
pub mod Sound
pub mod Rounds
pub mod Runs
pub mod Packets
pub mod Wire
mod Examples
use peer_calls.Base.{
  ℕ, suc, ◌≡◌, refl, Bool, true, false, Option, none, some, List, [], ◌∷◌, ◌++◌, ◌==◌,
  if◌then◌else◌,
}
use peer_calls.Base.Dict.{get, set, delete}
use mathlib.Core.Logic.{ite}

-- A connection is known by its number; `is_closed` says whether `close` closed its channels.
pub record Conn {ℓ} (K : Type ℓ) : Type ℓ where
  pub ref : ℕ
  pub stream_id : K

-- The outer `select`; the one of `acceptOrGet`, and that of `handlePacket`, with a packet; the end.
pub data Phase {ℓ} (K : Type ℓ) : Type ℓ where
  selecting : Phase K
  offering : Conn K → List ℕ → Phase K
  delivering : Conn K → List ℕ → Phase K
  torn_down : Phase K

pub record Muxer {ℓ} (K : Type ℓ) : Type ℓ where
  pub conns : List (K × Conn K)
  pub is_closed : ℕ → Bool
  pub next_conn : ℕ
  pub phase : Phase K

pub data Input {ℓ} (K : Type ℓ) : Type ℓ where
  get_conn_request : K → Input K
  remote_packet : K → List ℕ → Input K
  remote_packets_end : Input K
  close_conn_request : Conn K → Input K
  conn_accepted : Input K
  packet_taken : Input K
  conn_torndown : Input K
  teardown : Input K

pub data Effect {ℓ} (K : Type ℓ) : Type ℓ where
  give_conn : Conn K → Effect K
  conn_already_exists : K → Effect K
  offer_taken : Conn K → Effect K
  deliver : Conn K → List ℕ → Effect K
  conn_not_found : Conn K → Effect K
  close_answered : Conn K → Effect K

-- A round of a `select`: its input is not received, or it panics, or it ends.
pub data Round {ℓ} (K : Type ℓ) : Type ℓ where
  waits : Round K
  panics : Round K
  went : Muxer K → List (Effect K) → Round K

unfoldable pub new_muxer {ℓ} : {K : Type ℓ} → Muxer K
new_muxer = record { conns = []; is_closed = λ i. false; next_conn = 0; phase = selecting }

abbrev pub mark {ℓ} : {A : Type ℓ} → ℕ → A → (ℕ → A) → ℕ → A
mark i a f j = if i == j then a else f j

-- A call of `close`, which panics on a connection that is closed.
unfoldable pub close_conn {ℓ} : {K : Type ℓ} → Conn K → Muxer K → Option (Muxer K)
close_conn c m =
    if m.is_closed c.ref then none else some (record m { is_closed = mark c.ref true m.is_closed })

unfoldable pub close_conns {ℓ} : {K : Type ℓ} → List (K × Conn K) → Muxer K → Option (Muxer K)
close_conns [] m = some m
close_conns ((k, c) ∷ cs) m = elim (close_conn c m) [ none ↦ none | some m' ↦ close_conns cs m' ]

abbrev pub end_with {ℓ} : {K : Type ℓ} → Option (Muxer K) → Round K
end_with none = panics
end_with (some m) = went (record m { phase = torn_down }) []

-- The deferred function.
unfoldable pub finish {ℓ} : {K : Type ℓ} → Muxer K → Round K
finish m = end_with (close_conns m.conns m)

unfoldable pub create_conn {ℓ} : {K : Type ℓ} → K → Muxer K → Muxer K × Conn K
create_conn k m =
    (record m { next_conn = suc m.next_conn }, record { ref = m.next_conn; stream_id = k })

module _ {ℓ} {K : Type ℓ} (dec : Discrete K) where
  unfoldable pub get_new_conn_at : K → Option (Conn K) → Muxer K → Muxer K × List (Effect K)
  get_new_conn_at k (some c) m = (m, conn_already_exists k ∷ [])
  get_new_conn_at k none m =
      let (m', c) = create_conn k m in
      (record m' { conns = set dec k c m'.conns }, give_conn c ∷ [])

  unfoldable pub get_new_conn : K → Muxer K → Muxer K × List (Effect K)
  get_new_conn k m = get_new_conn_at k (get dec k m.conns) m

  -- The next phase of `handlePacket`, by whether there is a connection.
  unfoldable pub handle_packet_at : K → List ℕ → Option (Conn K) → Muxer K → Muxer K
  handle_packet_at k bytes (some c) m = record m { phase = delivering c bytes }
  handle_packet_at k bytes none m =
      let (m', c) = create_conn k m in record m' { phase = offering c bytes }

  abbrev pub closed_answer : Conn K → Option (Muxer K) → Round K
  closed_answer c none = panics
  closed_answer c (some m) = went m (close_answered c ∷ [])

  unfoldable pub handle_close_at : Conn K → Option (Conn K) → Muxer K → Round K
  handle_close_at c none m = went m (conn_not_found c ∷ [])
  handle_close_at c (some d) m =
      if d.ref == c.ref
      then closed_answer c (close_conn d (record m { conns = delete dec c.stream_id m.conns }))
      else went m (close_answered c ∷ [])

  abbrev pub went_with : Muxer K × List (Effect K) → Round K
  went_with (m, es) = went m es

  -- A round of the loop of `start`.
  unfoldable pub select_round : Input K → Muxer K → Round K
  select_round (get_conn_request k) m = went_with (get_new_conn k m)
  select_round (remote_packet k bytes) m = went (handle_packet_at k bytes (get dec k m.conns) m) []
  select_round remote_packets_end m = finish m
  select_round (close_conn_request c) m = handle_close_at c (get dec c.stream_id m.conns) m
  select_round conn_accepted m = waits
  select_round packet_taken m = waits
  select_round conn_torndown m = waits
  select_round teardown m = finish m

  -- The connection is put in the map, and its packet is next.
  abbrev pub keep_offered : Conn K → List ℕ → Muxer K → Muxer K
  keep_offered c bytes m = record m {
    conns = set dec c.stream_id c m.conns;
    phase = delivering c bytes;
  }

  -- A round of the loop of `acceptOrGet`.
  unfoldable pub offer_round : Conn K → List ℕ → Input K → Muxer K → Round K
  offer_round c bytes (get_conn_request k) m =
      ite (dec k c.stream_id) (went (keep_offered c bytes m) (give_conn c ∷ []))
        (went_with (get_new_conn k m))
  offer_round c bytes (remote_packet k more) m = waits
  offer_round c bytes remote_packets_end m = waits
  offer_round c bytes (close_conn_request d) m = waits
  offer_round c bytes conn_accepted m = went (keep_offered c bytes m) (offer_taken c ∷ [])
  offer_round c bytes packet_taken m = waits
  offer_round c bytes conn_torndown m = waits
  offer_round c bytes teardown m = finish m

  -- The last `select` of `handlePacket`; a send on a closed channel panics.
  unfoldable pub deliver_round : Conn K → List ℕ → Input K → Muxer K → Round K
  deliver_round c bytes (get_conn_request k) m = waits
  deliver_round c bytes (remote_packet k more) m = waits
  deliver_round c bytes remote_packets_end m = waits
  deliver_round c bytes (close_conn_request d) m = waits
  deliver_round c bytes conn_accepted m = waits
  deliver_round c bytes packet_taken m =
      if m.is_closed c.ref
      then panics
      else went (record m { phase = selecting }) (deliver c bytes ∷ [])
  deliver_round c bytes conn_torndown m =
      if m.is_closed c.ref then went (record m { phase = selecting }) [] else waits
  deliver_round c bytes teardown m = finish m

  unfoldable pub round_at : Phase K → Input K → Muxer K → Round K
  round_at selecting i m = select_round i m
  round_at (offering c bytes) i m = offer_round c bytes i m
  round_at (delivering c bytes) i m = deliver_round c bytes i m
  round_at torn_down i m = waits

  abbrev pub and_then : List (Effect K) → Round K → Round K
  and_then es waits = waits
  and_then es panics = panics
  and_then es (went m fs) = went m (es ++ fs)

  -- The rounds on inputs, if each of them is received in its turn.
  unfoldable pub run : List (Input K) → Muxer K → Round K
  run [] m = went m []
  run (i ∷ is) m = elim (round_at m.phase i m) [
    | waits ↦ waits
    | panics ↦ panics
    | went m' es ↦ and_then es (run is m')
  ]
