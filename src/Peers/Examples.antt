-- ===== src/Peers/Examples.antt =====
-- A room with one client, which connects again.
use peer_calls.Base.{ℕ, true, false, none, some, [], ◌∷◌}
use peer_calls.PubSub.Reader.{audio, TrackReader}
use peer_calls.PubSub.Broker.{Transport, Calls, new_pub_sub, pub_track}
use peer_calls.PubSub.Hub.{new_hub}
use peer_calls.Peers.{PeerManager, add_transport}
use peer_calls.Peers.Pli.{Apart, sent_for, plis-Apart}

abbrev fine : Calls
fine = record { adds = λ tr t. some 7; removes = λ tr t. true; unsubscribes = λ r. true }

abbrev reader_of : ℕ → TrackReader
reader_of r = record {
  closed = false;
  track_remote = record {
    track = record { track_id = r; peer_id = 1; kind = audio };
    ssrc = r;
    rid = 0;
    subscribable = false;
    unsubscribable = false;
  };
  subs = [];
}

abbrev empty_room : PeerManager
empty_room = record {
  transports = [];
  pli_times = [];
  pubsub = new_pub_sub reader_of;
  hub = new_hub;
  torn_down = false;
}

abbrev first : Transport
first = record { transport_id = 0; client_id = 4 }

abbrev second_time : Transport
second_time = record { transport_id = 1; client_id = 4 }

abbrev one_client : PeerManager
one_client = (add_transport fine first empty_room).0

-- Client 4 has published track 5, and five indications are asked for it.
abbrev one_track : PeerManager
one_track = record one_client { pubsub = (pub_track 4 5 one_client.pubsub).0 }

plis-Apart_example : Apart none (
    sent_for
      (λ tr. true)
      5
      ((3000000000, 5) ∷ (3500000000, 5) ∷ (3600000000, 6) ∷ (4000000000, 5) ∷ (4100000000, 5) ∷ [])
      one_track)
plis-Apart_example =
    plis-Apart (λ tr. true) 5
      ((3000000000, 5) ∷ (3500000000, 5) ∷ (3600000000, 6) ∷ (4000000000, 5) ∷ (4100000000, 5) ∷ [])
      one_track
