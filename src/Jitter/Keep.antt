-- ===== src/Jitter/Keep.antt =====
-- server/sfu/jitter_buffer.go: the buffers of several tracks.
use native.Mathlib.Decide.{ℕ_discrete}
use peer_calls.Base.{ℕ, ◌<◌, ◌≡◌, ◌≢◌, ◌⊎◌, refl, ap, ◌∙◌, Option, none, some, inl, inr}
use mathlib.Core.Path.{subst}
use peer_calls.Base.Dict
use peer_calls.Nack.{Packet, Buffer, Nack, NackPair, new_buffer, push, create_nack_pair}
use peer_calls.Nack
use peer_calls.Nack.Push.{IsRing}
use peer_calls.Nack.Ring.{push-IsRing, get_packet-push}
use peer_calls.Jitter.{Buffers, push_rtp, get_packet, remove_buffer, buffer_or_new, packet_of}

-- Every buffer has the shape that `Push` keeps.
abbrev pub AllRings : Buffers → Type 0
AllRings bs = (ssrc : ℕ) → IsRing (buffer_or_new (Dict.get ℕ_discrete ssrc bs))

get_packet-buffer :
    (ssrc sn : ℕ) (bs : Buffers)
    → get_packet ssrc sn bs ≡ Nack.get_packet sn (buffer_or_new (Dict.get ℕ_discrete ssrc bs))
unfolding get_packet packet_of
get_packet-buffer ssrc sn bs = go (Dict.get ℕ_discrete ssrc bs)
  where
    go : (o : Option Buffer) → packet_of o sn ≡ Nack.get_packet sn (buffer_or_new o)
    go none = unfold packet_of Nack.get_packet new_buffer in refl
    go (some b) = unfold packet_of in refl

-- Where every buffer has its shape: after a packet is pushed, its buffer has it, and the buffers of all other tracks have what
-- they had. Every buffer keeps its shape.
pub push_rtp_lem :
    (p : Packet) (bs : Buffers) (ssrc sn : ℕ)
    → p.sequence_number < 65536
    → AllRings bs
    → (get_packet p.ssrc p.sequence_number (push_rtp p bs).0 ≡ some p)
      × ((p.ssrc ≡ ssrc) ⊎ (get_packet ssrc sn (push_rtp p bs).0 ≡ get_packet ssrc sn bs))
      × AllRings (push_rtp p bs).0
unfolding push_rtp
push_rtp_lem p bs ssrc sn h rings =
    let b = buffer_or_new (Dict.get ℕ_discrete p.ssrc bs) in
    let c = (push p b).0 in
    let bs' = Dict.set ℕ_discrete p.ssrc c bs in
    let own = Dict.get-set_self ℕ_discrete p.ssrc c bs in
    (
      get_packet-buffer p.ssrc p.sequence_number bs'
          ∙ ap (λ (o : Option Buffer). Nack.get_packet p.sequence_number (buffer_or_new o)) own
          ∙ (get_packet-push p b p.sequence_number h (rings p.ssrc)).0,
      elim (ℕ_discrete p.ssrc ssrc) [
        | yes e ↦ inl e
        | no n ↦ inr (
            unfold get_packet in
            ap (λ (o : Option Buffer). packet_of o sn)
              (Dict.get-set_ne ℕ_discrete p.ssrc ssrc c bs n))
      ],
      λ s. elim (ℕ_discrete p.ssrc s) [
        | yes e ↦
            subst (λ t. IsRing (buffer_or_new (Dict.get ℕ_discrete t bs'))) e
              (rw own (push-IsRing p b h (rings p.ssrc)))
        | no n ↦ rw (Dict.get-set_ne ℕ_discrete p.ssrc s c bs n) (rings s)
      ],
    )

-- A removed buffer has no packets, and the buffers of all other tracks have what they had.
pub remove_buffer_lem :
    (ssrc other sn : ℕ) (bs : Buffers)
    → ssrc ≢ other
    → (get_packet ssrc sn (remove_buffer ssrc bs) ≡ none)
      × (get_packet other sn (remove_buffer ssrc bs) ≡ get_packet other sn bs)
unfolding remove_buffer get_packet packet_of
remove_buffer_lem ssrc other sn bs n = (
  ap (λ (o : Option Buffer). packet_of o sn) (Dict.get-delete_self ℕ_discrete ssrc bs),
  ap (λ (o : Option Buffer). packet_of o sn) (Dict.get-delete_ne ℕ_discrete ssrc other bs n),
)
