-- ===== src/Peers/Pli.antt =====
-- server/sfu/peer_manager.go: how often a picture loss indication reaches the source of a track.
use native.Mathlib.Decide.{ℕ_discrete}
use mathlib.Core.Path.{subst}
use peer_calls.Base.{
  ℕ, ◌+◌, ◌≤◌, ◌≡◌, refl, sym, ap, ◌∙◌, arith, Bool, true, false, ◌&&◌, Option, none, some, List,
  [], ◌∷◌, ◌==◌, if◌then◌else◌, Bool-cases, inl, inr,
}
use peer_calls.Base.Dict.{get, set, get-set_self, get-set_ne}
use peer_calls.PubSub.Broker.{Transport}
use peer_calls.PubSub.Requests.{TrackProps, track_props_by_track_id}
use peer_calls.Peers.{PeerManager, PeerEffect, too_soon, send_to, send_pli, forward_pli}

abbrev pub is_sent : List PeerEffect → Bool
is_sent [] = false
is_sent (e ∷ es) = true

-- The times at which an indication is sent for one track, out of the requests for all tracks.
unfoldable pub sent_for : (Transport → Bool) → ℕ → List (ℕ × ℕ) → PeerManager → List ℕ
sent_for writes t [] m = []
sent_for writes t ((now, u) ∷ rs) m =
    let (m', effects, e) = forward_pli writes now u m in
    let rest = sent_for writes t rs m' in if u == t && is_sent effects then now ∷ rest else rest

-- A time is 1000000000 nanoseconds or more after the last one, if there is one.
abbrev pub SecondAfter : Option ℕ → ℕ → Type 0
SecondAfter none now = Unit
SecondAfter (some last) now = last + 1000000000 ≤ now

-- Each time is a second or more after the one before.
abbrev pub Apart : Option ℕ → List ℕ → Type 0
Apart last [] = Unit
Apart last (now ∷ rest) = SecondAfter last now × Apart (some now) rest

-- The last time that was sent is not after the time that is kept.
abbrev NotAfter : Option ℕ → Option ℕ → Type 0
NotAfter none o = Unit
NotAfter (some a) none = ⊥
NotAfter (some a) (some b) = a ≤ b

later :
    (now : ℕ) (last kept : Option ℕ)
    → NotAfter last kept
    → too_soon now kept ≡ false
    → SecondAfter last now
later now none kept h e = tt
later now (some a) none h e = absurd h
later now (some a) (some b) h e = ground (arith, h)

NotAfter-now :
    (now : ℕ) (last kept : Option ℕ)
    → NotAfter last kept
    → too_soon now kept ≡ false
    → NotAfter last (some now)
NotAfter-now now none kept h e = tt
NotAfter-now now (some a) none h e = absurd h
NotAfter-now now (some a) (some b) h e = ground (arith, h)

send_soon :
    (writes : Transport → Bool) (o : Option TrackProps) (ts : List (ℕ × Transport))
    → is_sent (send_pli writes o ts true).0 ≡ false
send_soon writes none ts = refl
send_soon writes (some props) ts = go (get ℕ_discrete props.client_id ts)
  where
    go : (o : Option Transport) → is_sent (send_to writes props.ssrc true o).0 ≡ false
    go none = refl
    go (some tr) = refl

Apart-if :
    (last : Option ℕ) (now : ℕ) (rest : List ℕ) (b : Bool)
    → (b ≡ true → SecondAfter last now × Apart (some now) rest)
    → (b ≡ false → Apart last rest)
    → Apart last (if b then now ∷ rest else rest)
Apart-if last now rest true f g = f refl
Apart-if last now rest false f g = g refl

module _ (writes : Transport → Bool) where
  sent-Apart :
      (t : ℕ) (last : Option ℕ) (rs : List (ℕ × ℕ)) (m : PeerManager)
      → NotAfter last (get ℕ_discrete t m.pli_times)
      → Apart last (sent_for writes t rs m)
  unfolding sent_for forward_pli
  sent-Apart t last [] m h = tt
  sent-Apart t last ((now, u) ∷ rs) m h =
      elim (Bool-cases (too_soon now (get ℕ_discrete u m.pli_times))) [
        | inl soon ↦ rw soon (
            Apart-if last now (sent_for writes t rs m) _
              (λ e. absurd (
                ground
                  (arith, e, send_soon writes (track_props_by_track_id u m.pubsub) m.transports)))
              (λ e. sent-Apart t last rs m h))
        | inr late ↦
            let m' : PeerManager = record m { pli_times = set ℕ_discrete u now m.pli_times } in
            rw late (elim (ℕ_discrete u t) [
              | yes p ↦
                  let kept : too_soon now (get ℕ_discrete t m.pli_times) ≡ false =
                    ap (λ i. too_soon now (get ℕ_discrete i m.pli_times)) (sym p) ∙ late in
                  let new : get ℕ_discrete t m'.pli_times ≡ some now =
                    ap (λ i. get ℕ_discrete i m'.pli_times) (sym p)
                    ∙ get-set_self ℕ_discrete u now m.pli_times in
                  Apart-if last now (sent_for writes t rs m') _
                    (λ e. (
                      later now last (get ℕ_discrete t m.pli_times) h kept,
                      sent-Apart t (some now) rs m'
                          (subst (NotAfter (some now)) (sym new) (omega arith)),
                    ))
                    (λ e. sent-Apart t last rs m' (
                      subst (NotAfter last) (sym new)
                        (NotAfter-now now last (get ℕ_discrete t m.pli_times) h kept)))
              | no n ↦
                  Apart-if last now (sent_for writes t rs m') _ (λ e. absurd (ground (arith, e, n)))
                    (λ e.
                      sent-Apart t last rs m' (
                        subst (NotAfter last) (sym (get-set_ne ℕ_discrete u t now m.pli_times n))
                          h))
            ])
      ]

  -- Whatever indications are asked for, for whatever tracks and at whatever times: those of one
  -- track that reach its source are a second, 1000000000 nanoseconds, or more apart.
  pub plis-Apart :
      (t : ℕ) (rs : List (ℕ × ℕ)) (m : PeerManager) → Apart none (sent_for writes t rs m)
  plis-Apart t rs m = sent-Apart t none rs m tt
