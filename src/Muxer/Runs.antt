-- ===== src/Muxer/Runs.antt =====
-- server/stringmux/stringmux.go: runs of `start`, and where the packets go.
use mathlib.Core.Path.{subst}
use peer_calls.Base.{◌≡◌, ◌≢◌, refl, List, [], ◌∷◌, ◌++◌, All}
use peer_calls.Muxer.{
  Conn, Muxer, Input, Effect, give_conn, conn_already_exists, offer_taken, deliver, conn_not_found,
  close_answered, Round, waits, panics, went, and_then, new_muxer, round_at, run,
}
use peer_calls.Muxer.Sound.{IsSound, IsKnown, KnownAt-out, Given, Good}
use peer_calls.Muxer.Rounds.{round_at-Good}

module _ {K : Type 0} (dec : Discrete K) where
  -- What a run from `m` promises: it does not panic, what was known stays known, and what it gives
  -- out is known.
  abbrev pub Orderly : Muxer K → Round K → Type 0
  Orderly m waits = Unit
  Orderly m panics = ⊥
  Orderly m (went m' es) =
      IsSound dec m' × ((c : Conn K) → IsKnown dec c m → IsKnown dec c m') × All (Given dec m') es

  Given-later :
      (m m' : Muxer K) (es : List (Effect K))
      → ((c : Conn K) → IsKnown dec c m → IsKnown dec c m')
      → All (Given dec m) es
      → All (Given dec m') es
  Given-later m m' [] f h = tt
  Given-later m m' (give_conn c ∷ es) f (h, hs) = (f c h, Given-later m m' es f hs)
  Given-later m m' (conn_already_exists k ∷ es) f (h, hs) = (tt, Given-later m m' es f hs)
  Given-later m m' (offer_taken c ∷ es) f (h, hs) = (f c h, Given-later m m' es f hs)
  Given-later m m' (deliver c bytes ∷ es) f (h, hs) = (tt, Given-later m m' es f hs)
  Given-later m m' (conn_not_found c ∷ es) f (h, hs) = (tt, Given-later m m' es f hs)
  Given-later m m' (close_answered c ∷ es) f (h, hs) = (tt, Given-later m m' es f hs)

  All-append :
      (P : Effect K → Type 0) (es fs : List (Effect K)) → All P es → All P fs → All P (es ++ fs)
  All-append P [] fs h k = k
  All-append P (e ∷ es) fs (h, hs) k = (h, All-append P es fs hs k)

  -- A round, and then a run that keeps what was known.
  and_then-Orderly :
      (m m' : Muxer K) (es : List (Effect K)) (r : Round K)
      → ((c : Conn K) → IsKnown dec c m → IsKnown dec c m')
      → All (Given dec m') es
      → Orderly m' r
      → Orderly m (and_then dec es r)
  and_then-Orderly m m' es waits f given g = tt
  and_then-Orderly m m' es panics f given g = g
  and_then-Orderly m m' es (went m2 fs) f given (sound, keeps, more) = (
    sound,
    (λ c known. keeps c (f c known)),
    All-append (Given dec m2) es fs (Given-later m' m2 es keeps given) more,
  )

  from_round :
      (is : List (Input K)) (m : Muxer K) (r : Round K)
      → Good dec m r
      → ((m' : Muxer K) → IsSound dec m' → Orderly m' (run dec is m'))
      → Orderly m (elim r [
        | waits ↦ waits
        | panics ↦ panics
        | went m' es ↦ and_then dec es (run dec is m')
      ])
  from_round is m waits g rest = tt
  from_round is m panics g rest = g
  from_round is m (went m' es) (sound, keeps, given) rest =
      and_then-Orderly m m' es (run dec is m') (λ c k. keeps c (KnownAt-out dec m.phase c m k))
        given (rest m' sound)

  run-Orderly : (is : List (Input K)) (m : Muxer K) → IsSound dec m → Orderly m (run dec is m)
  unfolding run
  run-Orderly [] m s = (s, (λ c k. k), tt)
  run-Orderly (i ∷ is) m s =
      from_round is m (round_at dec m.phase i m) (round_at-Good dec m.phase i m s refl)
        (λ m' s'. run-Orderly is m' s')

  new_muxer-IsSound : IsSound dec new_muxer
  unfolding new_muxer
  new_muxer-IsSound = record { opened = tt; apart = tt; fresh = λ r le. refl }

  -- Whatever a muxer receives, in whatever order, no round of it panics: no connection is closed
  -- twice, and nothing is sent to a closed one.
  pub run_never_panics : (is : List (Input K)) → run dec is new_muxer ≢ panics
  run_never_panics is e = subst (Orderly new_muxer) e (run-Orderly is new_muxer new_muxer-IsSound)

  -- After a run of a muxer, each connection that was given to a caller or taken from the offers is
  -- closed, or it is the one that its name leads to; if the loop has ended, it is closed.
  pub run-Given :
      (is : List (Input K)) (m : Muxer K) (es : List (Effect K))
      → run dec is new_muxer ≡ went m es
      → All (Given dec m) es
  run-Given is m es e = (subst (Orderly new_muxer) e (run-Orderly is new_muxer new_muxer-IsSound)).2
