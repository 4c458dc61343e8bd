-- ===== src/Muxer/Examples.antt =====
-- A muxer with a connection that its user asks for and one that is offered.
use native.Mathlib.Decide.{ℕ_discrete}
use peer_calls.Base.{ℕ, ◌≡◌, ◌≢◌, refl, Bool, true, false, List, [], ◌∷◌, ◌++◌, All}
use peer_calls.Base.Dict.{get, set, delete}
use peer_calls.Muxer.{
  Conn, delivering, Muxer, Input, get_conn_request, remote_packet, remote_packets_end,
  close_conn_request, conn_accepted, packet_taken, Effect, give_conn, offer_taken, deliver,
  close_answered, panics, went, mark, new_muxer, run, round_at, select_round, get_new_conn,
  get_new_conn_at, create_conn, handle_packet_at, offer_round, deliver_round, handle_close_at,
  close_conn,
}
use peer_calls.Muxer.Sound.{Given}
use peer_calls.Muxer.Runs.{run_never_panics, run-Given}
use peer_calls.Muxer.Packets.{handed_all, pending, received_all, packets_arrive}
use peer_calls.Muxer.Wire.{Write, arrivals}

-- Stream 4 is asked for, stream 9 is offered with its packet and taken, and stream 4 is closed.
abbrev two_streams : List (Input ℕ)
two_streams =
    get_conn_request 4
    ∷ remote_packet 9 (1 ∷ [])
    ∷ conn_accepted
    ∷ packet_taken
    ∷ remote_packet 4 (2 ∷ [])
    ∷ packet_taken
    ∷ close_conn_request (record { ref = 0; stream_id = 4 })
    ∷ remote_packet 9 (3 ∷ [])
    ∷ []

abbrev asked_conn : Conn ℕ
asked_conn = record { ref = 0; stream_id = 4 }

abbrev offered_conn : Conn ℕ
offered_conn = record { ref = 1; stream_id = 9 }

abbrev two_end : Muxer ℕ
two_end = record {
  conns = (9, offered_conn) ∷ [];
  is_closed = mark 0 true (λ i. false);
  next_conn = 2;
  phase = delivering offered_conn (3 ∷ []);
}

abbrev two_effects : List (Effect ℕ)
two_effects =
    give_conn asked_conn
    ∷ offer_taken offered_conn
    ∷ deliver offered_conn (1 ∷ [])
    ∷ deliver asked_conn (2 ∷ [])
    ∷ close_answered asked_conn
    ∷ []

two_streams-run : run ℕ_discrete two_streams new_muxer ≡ went two_end two_effects
unfolding run new_muxer get set delete ℕ_discrete round_at select_round get_new_conn get_new_conn_at
    create_conn handle_packet_at offer_round deliver_round handle_close_at close_conn
two_streams-run = refl

run_never_panics_example : run ℕ_discrete two_streams new_muxer ≢ panics
run_never_panics_example = run_never_panics ℕ_discrete two_streams

run-Given_example : All (Given ℕ_discrete two_end) two_effects
run-Given_example = run-Given ℕ_discrete two_streams two_end two_effects two_streams-run

packets_arrive_example :
    handed_all ℕ_discrete 9 two_effects ++ pending ℕ_discrete 9 two_end.phase
    ≡ received_all ℕ_discrete 9 two_streams
packets_arrive_example =
    packets_arrive ℕ_discrete 9 two_streams two_end two_effects two_streams-run (λ e. cc e)

abbrev write_to : List ℕ → List ℕ → Bool → Bool → Write
write_to stream_id bytes write_closed taken = record {
  stream_id = stream_id;
  bytes = bytes;
  torndown = false;
  write_closed = write_closed;
  taken = taken;
}

-- One write is cut, one is taken whole, one fails below, and one comes after the close.
abbrev four_writes : List Write
four_writes =
    write_to (7 ∷ 8 ∷ []) (1 ∷ 2 ∷ 3 ∷ 4 ∷ 5 ∷ []) false true
    ∷ write_to (9 ∷ []) (6 ∷ []) false true
    ∷ write_to (9 ∷ []) (5 ∷ []) false false
    ∷ write_to (7 ∷ 8 ∷ []) (4 ∷ []) true true
    ∷ []

four_writes-arrive :
    arrivals 8 four_writes
    ≡ remote_packet (7 ∷ 8 ∷ []) (1 ∷ 2 ∷ 3 ∷ 4 ∷ [])
      ∷ remote_packet (9 ∷ []) (6 ∷ [])
      ∷ remote_packets_end
      ∷ []
four_writes-arrive = refl
