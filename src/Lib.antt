-- ===== src/Lib.antt =====
-- Verification of the server of peer-calls, a group call service: browsers connect over WebRTC, and
-- the server forwards their tracks, between the nodes of a cluster too.
--
-- The parts and how they interact. A browser that joins enters a room (server/room.go), and its
-- messages go through the room's adapter (server/memoryadapter.go). Its WebRTC connection is
-- negotiated by server/wrtcnegotiator.go and server/wrtcsignaller.go. Packets of its tracks pass the jitter handler
-- (server/sfu/jitter.go), which keeps the last packets of each track (server/sfu/jitter_buffer.go,
-- server/sfu/buffer.go), asks for lost ones and answers those who ask. What is received is counted
-- for receiver reports (server/sfu/stats). The tracks manager (server/sfu/tracks_manager.go) has a
-- peer manager for each room (server/sfu/peer_manager.go), which keeps the transports of the
-- clients and, in server/pubsub, their published tracks, who subscribes to them and who is told of
-- them. Nodes exchange the tracks of a room over a transport for each room: the control events of
-- server/udptransport2 open and close these, and their packets carry the name of their stream
-- (server/stringmux/packetizer.go), by which a muxer (server/stringmux/stringmux.go) hands them to
-- the stream's connection. The manager of server/udptransport2/manager.go has a factory of such
-- transports for each node. The parameters of a track's codec come from server/codecs.
-- server/basen encodes identifiers.
--
-- The files, with the code that each models:
--   Base        no code of the program: shared names and lemmas. Base/Tests has the Boolean tests on
--               native numbers, Base/Lists the lists measured by them, Base/Word the 16-bit and
--               32-bit arithmetic with its wrap-around, Base/Dict Go's maps, Base/Bits the bits of a
--               number, Base/Keys maps from numbers, Base/Entries what holds of a map's entries.
--   Control     server/udptransport2/control_state_tracker.go, `controlStateTracker`: `on_want_create`
--               is `wantCreate`, `on_want_close` is `wantClose`, the other names are the source's.
--     Factory   the two handlers in `Factory.start` of server/udptransport2/factory.go.
--     Events    what a tracker answers; Slots: what a factory keeps; Link: two factories joined by
--               channels that keep the order, each handler in an environment of its own; Lead and
--               Crossing: their runs where one node wishes, and where both do; Loop: the event loop of `Factory.start` with its pings.
--   Nack        server/sfu/buffer.go, `Buffer`; Range has its loops, Pair, First and Names its NACK
--               pairs, Push and Ring the ring, Create has `CreateNackPair`.
--   Jitter      server/sfu/jitter_buffer.go and server/sfu/jitter.go; Found and Handle answer NACKs,
--               Keep is about the buffers.
--   Stats       server/sfu/stats: Ntp is ntp.go, Source is source.go, Receiver is receiver.go; Clock is
--               about times, Sequence and Report about a source, Members about a session.
--   Mux         server/stringmux/packetizer.go, `Marshal` and `Unmarshal`.
--   Basen       server/basen/basen.go, the encoder and the decoder.
--   Room        server/room.go, `AdapterRoomManager` and `ChannelRoomManager`.
--   Memory      server/memoryadapter.go.
--   MultiErr    server/multierr/multierr.go, `MultiErr`.
--   Negotiator  server/wrtcnegotiator.go, the state machine of negotiation.
--   Signaller   server/wrtcsignaller.go and the types of server/message/signal.go (`handle_signal` is
--               `Signal`, `begin_close` and `end_close` are `Close` before and after it has the lock);
--               Order and Runs are about what is sent before the candidates.
--   Bitrate     server/pubsub/remb.go, `BitrateEstimator`; Average, Values and Extremes are about it.
--   PubSub      server/pubsub: Reader is track_reader.go, Broker and Requests are pubsub.go (`pub_track` is
--               `Pub`, `subscribe` is `Sub`, `unsubscribe` is `Unsub`), Hub is events.go. View says what
--               the maps lead to; Join, Withdraw, Unpublish and Terminate are about the operations, Maps
--               and Consistent about the maps, Steps about runs, Mirror and Announce about the events,
--               Strays about subscriptions that come to an end, Drop about the packets of a
--               reader, Delivery and Channels about the hub.
--   Logger      server/logger/wildcard_node.go, `wildcardNode` (`level_for` is `LevelForNamespace`), with the
--               levels of level.go; Text is level.go and config.go. Explicit is about the namespaces
--               that a configuration names, Patterns, Names, Known and Sound about its wildcards.
--   Peers       server/sfu/peer_manager.go, `PeerManager` (`add_transport` is `add`, `remove_transport`
--               is `Remove`, `forward_pli` is `forwardPLI` in `Sub`); Removal is about the transports,
--               Pli about the indications.
--   Tracks      server/sfu/tracks_manager.go, `TracksManager` (`add_peer` is `Add`, `transport_done` the
--               end of its goroutine, `sub_room` is `Sub`); Rooms is about the managers of the rooms.
--   Muxer       server/stringmux/stringmux.go, the loop `start` of `StringMux`, in its phases;
--               Conns is about its map of connections, Sound and Rounds about a round, Runs about runs, Packets
--               about where packets go, Wire about `Write` of conn.go and `startReading`. The loop of
--               server/udpmux/udpmux.go is the same over remote addresses.
--   Factories   server/udptransport2/manager.go, the loop `start` of `Manager`; Answers is about
--               the requests, Stuck about failed and replaced factories.
--   Codecs      server/codecs/registry.go, the search and `InterceptorParamsForCodec`; Fmtp is fmtp.go,
--               Fold is about texts without their case, and Search about both files.
-- Each component's Examples module applies its theorems to concrete inputs.
--
-- State is passed explicitly: a method that mutates its receiver is a function that returns the new
-- one. What a method does outside, such as a send on a channel or a call of pion, is a list of
-- effects; what it is told from outside, such as whether a write succeeds, is a parameter.
--
-- Bounds and fuel. Unsigned integers of 16, 32 and 64 bits wrap as in Go. The loops of the buffer
-- over sequence numbers have the fuel 65536, and no two numbers are further apart. The loop of
-- `Encode` has the encoded value as its fuel, and so has the list of bytes of a value: both divide
-- the value by at least 2 in every round.
--
-- Not modelled: logging and the locks, under which the modelled methods run one at a time; the
-- sockets of the muxers and the goroutines of the server transports; pion/webrtc, whose
-- `PacketList` is a parameter; the intervals of server/sfu/stats/scheduler.go, which are floats;
-- Redis, HTTP, configuration and the command line, which are input and output; the goroutines of
-- server/sfu/peer_manager.go; the constants of the default codec registry; the browser client.
-- Alphabets and texts of server/basen and server/codecs are ASCII. Times are nanoseconds since
-- 1970 that fit 64 bits. The float64 of the bitrate estimator is a natural number, which it is up
-- to 2 ^ 53.
pub mod Base
pub mod Control
pub mod Nack
pub mod Jitter
pub mod Stats
pub mod Mux
pub mod Basen
pub mod Room
pub mod Memory
pub mod Negotiator
pub mod Bitrate
pub mod MultiErr
pub mod PubSub
pub mod Logger
pub mod Peers
pub mod Tracks
pub mod Muxer
pub mod Factories
pub mod Codecs
pub mod Signaller
