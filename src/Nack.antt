-- ===== src/Nack.antt =====
-- server/sfu/buffer.go: the ring of recent RTP packets of one track, and the NACK packets that
-- report the holes in it. Sequence numbers are below 65536, timestamps and SSRCs below 2 ^ 32.
pub mod Range
pub mod Pair
pub mod First
pub mod Names
pub mod Push
pub mod Ring
pub mod Create
mod Examples
use peer_calls.Base.{
  ℕ, zero, suc, ◌+◌, ◌-◌, ◌*◌, ◌/◌, ◌%◌, ◌^◌, bit_or, Bool, true, false, Option, none, some, List,
  [], ◌∷◌, ◌++◌, ltb, leb, ◌==◌, if◌then◌else◌, not,
}
use peer_calls.Base.Word.{add16, sub16}

-- `rtp.Packet`, with the fields that the buffer reads and the rest as a number.
pub record Packet : Type 0 where
  pub sequence_number : ℕ
  pub timestamp : ℕ
  pub ssrc : ℕ
  pub payload : ℕ

-- `rtcp.NackPair` and `rtcp.TransportLayerNack`.
pub record NackPair : Type 0 where
  pub packet_id : ℕ
  pub lost_packets : ℕ

pub record Nack : Type 0 where
  pub sender_ssrc : ℕ
  pub media_ssrc : ℕ
  pub nacks : List NackPair

abbrev pub max_buffer_ts_delta : ℕ
max_buffer_ts_delta = 180000

abbrev pub max_nack_pair_size : ℕ
max_nack_pair_size = 17

pub record Buffer : Type 0 where
  pub packets : ℕ → Option Packet
  pub initialized : Bool
  pub last_push_sn : ℕ
  pub last_nack_sn : ℕ
  pub last_clear_ts : ℕ
  pub last_clear_sn : ℕ
  pub nack_window_size : ℕ
  pub ssrc : ℕ

unfoldable pub new_buffer : Buffer
new_buffer = record {
  packets = λ _. none;
  initialized = false;
  last_push_sn = 0;
  last_nack_sn = 0;
  last_clear_ts = 0;
  last_clear_sn = 0;
  nack_window_size = max_nack_pair_size;
  ssrc = 0;
}

unfoldable pub ts_delta : ℕ → ℕ → ℕ
ts_delta ts1 ts2 = if ltb ts2 ts1 then ts1 - ts2 else ts2 - ts1

abbrev pub is_nil : Option Packet → Bool
is_nil none = true
is_nil (some _) = false

-- `packets[i] = v`
abbrev pub put : (ℕ → Option Packet) → ℕ → Option Packet → ℕ → Option Packet
put m i v j = if j == i then v else m j

-- The values of `i` in `for i := start; i != end; i++` over uint16, which go round past 65535.
-- The loop has at most 65535 rounds.
unfoldable pub count_up : ℕ → ℕ → ℕ → List ℕ
count_up zero i end = []
count_up (suc fuel) i end =
    let rest = count_up fuel (add16 i 1) end in if i == end then [] else i ∷ rest

unfoldable pub range16 : ℕ → ℕ → List ℕ
range16 start end = count_up 65536 start end

-- `1 << (missingSN - fsn - 1)` in uint16: a shift by 16 or more gives 0.
unfoldable pub calc_blp : ℕ → ℕ → ℕ
calc_blp fsn missing_sn = 2 ^ sub16 (sub16 missing_sn fsn) 1 % 65536

unfoldable pub add_blp : ℕ → ℕ → ℕ → ℕ
unfolding calc_blp
add_blp fsn missing_sn blp = bit_or blp (calc_blp fsn missing_sn)

-- The first loop of `getNackPair`, up to its `break`.
unfoldable pub first_lost : (ℕ → Option Packet) → List ℕ → Option ℕ
first_lost m [] = none
first_lost m (i ∷ is) = if is_nil (m i) then some i else first_lost m is

-- Its second loop, on the pair `(blp, lostPkts)`.
unfoldable pub mark_lost : (ℕ → Option Packet) → ℕ → List ℕ → ℕ × ℕ → ℕ × ℕ
unfolding add_blp
mark_lost m fsn [] s = s
mark_lost m fsn (i ∷ is) (blp, lost) =
    mark_lost m fsn is (if is_nil (m i) then (add_blp fsn i blp, lost + 1) else (blp, lost))

abbrev pub no_pair : NackPair
no_pair = record { packet_id = 0; lost_packets = 0 }

nack_pair_from : (ℕ → Option Packet) → ℕ → Option ℕ → NackPair × ℕ
nack_pair_from m end none = (no_pair, 0)
nack_pair_from m end (some fsn) =
    let (blp, lost) = mark_lost m fsn (range16 (add16 fsn 1) end) (0, 1) in
    (record { packet_id = fsn; lost_packets = blp }, lost)

unfoldable pub get_nack_pair : (ℕ → Option Packet) → ℕ → ℕ → NackPair × ℕ
unfolding nack_pair_from
get_nack_pair m start end = nack_pair_from m end (first_lost m (range16 start end))

abbrev pub add_pair : NackPair × ℕ → List NackPair × ℕ → List NackPair × ℕ
add_pair (pair, lost) (pairs, total) =
    (if ltb 0 lost then pairs ++ (pair ∷ []) else pairs, total + lost)

-- The loop over full windows, with what it leaves in `start`.
unfoldable pub full_windows :
    (ℕ → Option Packet) → ℕ → ℕ → List NackPair × ℕ → ℕ × List NackPair × ℕ
full_windows m zero start (pairs, total) = (start, pairs, total)
full_windows m (suc size) start acc =
    full_windows m size (add16 start max_nack_pair_size)
      (add_pair (get_nack_pair m start (add16 start max_nack_pair_size)) acc)

-- `getNackPairs` for a given `delta`.
unfoldable pub pairs_within : (ℕ → Option Packet) → ℕ → ℕ → ℕ → List NackPair × ℕ
pairs_within m start end delta =
    let (start', pairs, total) = full_windows m (delta / max_nack_pair_size) start ([], 0) in
    if ltb 0 (delta % max_nack_pair_size)
    then add_pair (get_nack_pair m start' end) (pairs, total)
    else (pairs, total)

unfoldable pub get_nack_pairs : (ℕ → Option Packet) → ℕ → ℕ → List NackPair × ℕ
get_nack_pairs m start end = pairs_within m start end (sub16 end start)

-- The three assignments that clear the packet `p` at `i`.
abbrev pub cleared : ℕ → Packet → Buffer → Buffer
cleared i p b = record b {
  last_clear_ts = p.timestamp;
  last_clear_sn = i;
  packets = put b.packets i none;
}

-- The loop of `clearOldPackets`, up to its `break`.
unfoldable pub clear_loop : ℕ → List ℕ → Buffer → Buffer
unfolding ts_delta
clear_loop ts [] b = b
clear_loop ts (i ∷ is) b = elim (b.packets i) [
  | none ↦ clear_loop ts is b
  | some p ↦ elim (ltb (ts_delta ts p.timestamp) max_buffer_ts_delta) [
    | true ↦ b
    | false ↦ clear_loop ts is (cleared i p b)
  ]
]

unfoldable pub clear_old_packets : ℕ → ℕ → Buffer → Buffer
clear_old_packets ts sn b =
    if leb max_buffer_ts_delta (ts_delta ts b.last_clear_ts)
    then clear_loop ts (range16 (add16 b.last_clear_sn 1) sn) b
    else b

initialize : Packet → Buffer → Buffer
initialize p b = if b.initialized then b else record b {
  last_nack_sn = p.sequence_number;
  last_clear_ts = p.timestamp;
  last_clear_sn = sub16 p.sequence_number 1;
  ssrc = p.ssrc;
  initialized = true;
}

-- The statements of `Push` up to the clearing of old packets, and with it.
unfoldable pub stored : Packet → Buffer → Buffer
unfolding initialize
stored p b =
    let b1 = initialize p b in
    record b1 {
      packets = put b1.packets p.sequence_number (some p);
      last_push_sn = p.sequence_number;
    }

unfoldable pub store_packet : Packet → Buffer → Buffer
store_packet p b = clear_old_packets p.timestamp p.sequence_number (stored p b)

unfoldable pub report : ℕ → List NackPair × ℕ → Option Nack
report ssrc (pairs, lost) =
    if ltb 0 lost
    then some (record { sender_ssrc = ssrc; media_ssrc = ssrc; nacks = pairs })
    else none

unfoldable pub push : Packet → Buffer → Buffer × Option Nack
unfolding report
push p b =
    let b' = store_packet p b in
    let sn = p.sequence_number in
    if leb b'.nack_window_size (sub16 sn b'.last_nack_sn)
    then (
      record b' { last_nack_sn = sn },
      report b'.ssrc (get_nack_pairs b'.packets (sub16 sn b'.nack_window_size) sn),
    )
    else (b', none)

unfoldable pub get_packet : ℕ → Buffer → Option Packet
get_packet sn b = b.packets sn

-- `CreateNackPair`; the loop over `sequenceNumbers[1:]` first.
add_blps : ℕ → List ℕ → ℕ → ℕ
unfolding add_blp
add_blps fsn [] blp = blp
add_blps fsn (i ∷ is) blp = add_blps fsn is (add_blp fsn i blp)

unfoldable pub create_nack_pair : List ℕ → NackPair
unfolding add_blps
create_nack_pair [] = no_pair
create_nack_pair (fsn ∷ is) = record { packet_id = fsn; lost_packets = add_blps fsn is 0 }
