-- ===== src/Muxer/Wire.antt =====
-- server/stringmux: what a connection of one `StringMux` writes (`conn.Write` in conn.go) and
-- another reads (`startReading` in stringmux.go). Bytes are numbers below 256; a read takes what
-- fits in its buffer of `MTU` bytes.
use peer_calls.Base.{
  ℕ, ◌-◌, ◌%◌, ◌≡◌, refl, Bool, not, ◌||◌, Option, none, some, List, [], ◌∷◌, ◌++◌, length, take,
  if◌then◌else◌, ltb,
}
use peer_calls.Mux.{Result, ok, err, MuxError, marshal, unmarshal, string_mux_byte}
use peer_calls.Muxer.{Input, remote_packet, remote_packets_end}

pub data WriteResult : Type 0 where
  closed_pipe : WriteResult
  not_marshalled : MuxError → WriteResult
  not_written : WriteResult
  written : ℕ → WriteResult

-- The packet that is handed to the underlying connection, if any; whether that takes it decides.
abbrev pub written_as : (List ℕ → Bool) → ℕ → Result (List ℕ) → Option (List ℕ) × WriteResult
written_as writes n (err e) = (none, not_marshalled e)
written_as writes n (ok packet) = (some packet, if writes packet then written n else not_written)

-- The packet that is handed to the underlying connection, and what `Write` answers.
unfoldable pub conn_write :
    (List ℕ → Bool) → Bool → Bool → List ℕ → List ℕ → Option (List ℕ) × WriteResult
conn_write writes torndown write_closed stream_id bytes =
    if torndown || write_closed
    then (none, closed_pipe)
    else written_as writes (length bytes) (marshal stream_id bytes)

-- The packets that are read before the connection fails, or a packet does.
unfoldable pub start_reading : ℕ → List (List ℕ) → List (Input (List ℕ))
start_reading mtu [] = remote_packets_end ∷ []
start_reading mtu (packet ∷ packets) =
    let rest = start_reading mtu packets in
    elim (unmarshal (take mtu packet)) [
      | err e ↦ remote_packets_end ∷ []
      | ok (stream_id, bytes) ↦ remote_packet stream_id bytes ∷ rest
    ]

-- A write: the name and the data, whether the mux is torn down or the connection closed for writing
-- by then, and whether the underlying connection takes the packet without an error.
pub record Write : Type 0 where
  pub stream_id : List ℕ
  pub bytes : List ℕ
  pub torndown : Bool
  pub write_closed : Bool
  pub taken : Bool

-- The packet that the underlying connection has taken.
abbrev pub taken_packet : Option (List ℕ) × WriteResult → List (List ℕ)
taken_packet (some packet, written n) = packet ∷ []
taken_packet _ = []

-- The packets that the underlying connection has taken from writes.
abbrev pub sent : List Write → List (List ℕ)
sent [] = []
sent (w ∷ ws) =
    taken_packet (conn_write (λ packet. w.taken) w.torndown w.write_closed w.stream_id w.bytes)
    ++ sent ws

-- A write that fails: it is closed, the name has more than 255 bytes, or the packet is not taken.
abbrev pub fails : Write → Bool
fails w = (w.torndown || w.write_closed) || (ltb 255 (length w.stream_id) || not w.taken)

-- What arrives of the writes that do not fail, their data cut to the room after the name.
abbrev pub arrivals : ℕ → List Write → List (Input (List ℕ))
arrivals mtu [] = remote_packets_end ∷ []
arrivals mtu (w ∷ ws) =
    if fails w
    then arrivals mtu ws
    else remote_packet w.stream_id (take (mtu - 2 - length w.stream_id) w.bytes) ∷ arrivals mtu ws

packet_of : Write → List ℕ
packet_of w = string_mux_byte ∷ length w.stream_id % 256 ∷ (w.stream_id ++ w.bytes)

-- One packet that cannot be taken apart ends the reading, and so every stream: what comes later is
-- not read.
pub start_reading-malformed :
    (mtu : ℕ) (packet : List ℕ) (packets : List (List ℕ)) (e : MuxError)
    → unmarshal (take mtu packet) ≡ err e
    → start_reading mtu (packet ∷ packets) ≡ remote_packets_end ∷ []
unfolding start_reading
start_reading-malformed mtu packet packets e h = rw (h, start_reading) refl
