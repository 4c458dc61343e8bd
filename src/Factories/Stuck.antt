-- ===== src/Factories/Stuck.antt =====
-- server/udptransport2/manager.go: what happens to the loop when a factory fails, and to a factory
-- that replaces one of its address.
use mathlib.Core.Logic.{if_neg}
use mathlib.Core.Path.{subst}
use peer_calls.Base.{
  ℕ, ◌≡◌, ◌≢◌, ◌∙◌, refl, sym, ap, Bool, true, false, Option, none, some, List, [], ◌∷◌, All,
}
use peer_calls.Base.Dict.{get, set, delete, get-delete_self}
use peer_calls.Factories.{
  NewFactoryResponse, ManagerError, selecting, offering, Manager, Input, udp_conn, udp_conns_end,
  new_factory_request, factory_created, list_factories_request, remove_factory, factory_accepted,
  teardown, Effect, offer_taken, Round, waits, went, went_with, add_factory, request_at,
  handle_new_factory_request, handle_new_factory_response_at, select_round, accepted_at,
  offer_round, round_at, and_then, run,
}

module _ {K : Type 0} (dec : Discrete K) where
  -- Inputs that are neither the teardown nor a request for the address.
  abbrev pub IsOther : K → Input K → Type 0
  IsOther k teardown = ⊥
  IsOther k (new_factory_request j r gives) = j ≢ k
  IsOther k _ = Unit

  abbrev pub IsRequest : Input K → Type 0
  IsRequest (new_factory_request j r gives) = Unit
  IsRequest _ = ⊥

  -- Only requests were received, and the response is still offered.
  abbrev pub IsStuck : NewFactoryResponse K → List (Input K) → Round K → Type 0
  IsStuck res is waits = Unit
  IsStuck res is (went m es) = (m.phase ≡ offering res) × All IsRequest is

  request_at-phase :
      (k : K) (r : ℕ) (f pending : Option ℕ) (gives : Bool) (m : Manager K)
      → (request_at dec k r f pending gives m).0.phase ≡ m.phase
  unfolding request_at
  request_at-phase k r (some f) pending gives m = refl
  request_at-phase k r none (some p) gives m = refl
  request_at-phase k r none none false m = refl
  request_at-phase k r none none true m = refl

  offer_round-IsStuck :
      (res : NewFactoryResponse K) (e : ManagerError) (i : Input K) (m : Manager K)
      → res.error ≡ some e
      → m.phase ≡ offering res
      → IsOther res.raddr i
      → IsStuck res (i ∷ []) (offer_round dec res i m)
  unfolding offer_round handle_new_factory_request
  offer_round-IsStuck res e (udp_conn k) m failed p o = tt
  offer_round-IsStuck res e udp_conns_end m failed p o = tt
  offer_round-IsStuck res e (new_factory_request k r gives) m failed p o =
      rw (if_neg (dec k res.raddr) o) (
        request_at-phase k r (get dec k m.factories) (get dec k m.pending_requests) gives m ∙ p,
        (tt, tt),
      )
  offer_round-IsStuck res e (factory_created other) m failed p o = tt
  offer_round-IsStuck res e (list_factories_request r) m failed p o = tt
  offer_round-IsStuck res e (remove_factory k) m failed p o = tt
  offer_round-IsStuck res e factory_accepted m failed p o =
      subst (λ x. IsStuck res (factory_accepted ∷ []) (accepted_at dec x res m)) (sym failed) tt
  offer_round-IsStuck res e teardown m failed p o = absurd o

  round-IsStuck :
      (res : NewFactoryResponse K) (e : ManagerError) (i : Input K) (m : Manager K)
      → res.error ≡ some e
      → m.phase ≡ offering res
      → IsOther res.raddr i
      → IsStuck res (i ∷ []) (round_at dec m.phase i m)
  unfolding round_at
  round-IsStuck res e i m failed p o =
      subst (λ q. IsStuck res (i ∷ []) (round_at dec q i m)) (sym p)
        (offer_round-IsStuck res e i m failed p o)

  and_then-IsStuck :
      (res : NewFactoryResponse K) (i : Input K) (is : List (Input K)) (es : List (Effect K))
      (rest : Round K)
      → IsRequest i
      → IsStuck res is rest
      → IsStuck res (i ∷ is) (and_then dec es rest)
  and_then-IsStuck res i is es waits q h = tt
  and_then-IsStuck res i is es (went m fs) q (p, h) = (p, (q, h))

  through :
      (res : NewFactoryResponse K) (i : Input K) (is : List (Input K)) (round : Round K)
      → IsStuck res (i ∷ []) round
      → ((m' : Manager K) → m'.phase ≡ offering res → IsStuck res is (run dec is m'))
      → IsStuck res
          (i ∷ is)
          (elim round [ waits ↦ waits | went m' es ↦ and_then dec es (run dec is m') ])
  through res i is waits h rest = tt
  through res i is (went m' es) (p, (q, _)) rest =
      and_then-IsStuck res i is es (run dec is m') q (rest m' p)

  stays-IsStuck :
      (res : NewFactoryResponse K) (e : ManagerError) (is : List (Input K)) (m : Manager K)
      → res.error ≡ some e
      → m.phase ≡ offering res
      → All (IsOther res.raddr) is
      → IsStuck res is (run dec is m)
  unfolding run
  stays-IsStuck res e [] m failed p o = (p, tt)
  stays-IsStuck res e (i ∷ is) m failed p (o, os) =
      through res i is (round_at dec m.phase i m) (round-IsStuck res e i m failed p o)
        (λ m' p'. stays-IsStuck res e is m' failed p' os)

  created_unasked :
      (res : NewFactoryResponse K) (m : Manager K)
      → m.phase ≡ selecting
      → get dec res.raddr m.pending_requests ≡ none
      → round_at dec m.phase (factory_created res) m ≡ went (record m { phase = offering res }) []
  unfolding round_at select_round handle_new_factory_response_at
  created_unasked res m p g =
      ap (λ q. round_at dec q (factory_created res) m) p
      ∙ ap (λ o. went_with (handle_new_factory_response_at dec res o m)) g

  -- A factory that failed and that nobody asked for stops the loop: until somebody asks for this
  -- address or the manager is torn down, it receives only requests for factories, so that no list of
  -- factories is answered, no factory removed and no connection taken.
  pub failed_factory_blocks :
      (res : NewFactoryResponse K) (e : ManagerError) (is : List (Input K)) (m m' : Manager K)
      (es : List (Effect K))
      → res.error ≡ some e
      → m.phase ≡ selecting
      → get dec res.raddr m.pending_requests ≡ none
      → All (IsOther res.raddr) is
      → run dec (factory_created res ∷ is) m ≡ went m' es
      → (m'.phase ≡ offering res) × All IsRequest is
  unfolding run
  failed_factory_blocks res e is m m' es failed p g o ran = subst (IsStuck res is) ran (
      subst
        (λ round.
          IsStuck res is
            (elim round [ waits ↦ waits | went m1 fs ↦ and_then dec fs (run dec is m1) ]))
        (sym (created_unasked res m p g))
        (shift (run dec is (record m { phase = offering res }))
          (stays-IsStuck res e is (record m { phase = offering res }) failed refl o)))
    where
      shift : (rest : Round K) → IsStuck res is rest → IsStuck res is (and_then dec [] rest)
      shift waits h = tt
      shift (went m1 fs) h = h

  abbrev pub made : K → ℕ → NewFactoryResponse K
  made k f = record { raddr = k; factory = some f; error = none }

  -- A factory that nobody asked for is made and taken.
  made_and_taken :
      (k : K) (f : ℕ) (is : List (Input K)) (m : Manager K)
      → m.phase ≡ selecting
      → get dec k m.pending_requests ≡ none
      → run dec (factory_created (made k f) ∷ factory_accepted ∷ is) m
        ≡ and_then dec [] (
            and_then dec
              (offer_taken (some f) ∷ [])
              (run dec is (record m { factories = set dec k f m.factories; phase = selecting })))
  unfolding run round_at offer_round add_factory
  made_and_taken k f is m p g = rw (created_unasked (made k f) m p g, run) refl

  -- The removal of a factory that was torn down removes the factory that has replaced it at its
  -- address: it is not listed any more, while it was not closed.
  pub replaced_factory_forgotten :
      (k : K) (f1 f2 : ℕ) (m : Manager K)
      → m.phase ≡ selecting
      → get dec k m.pending_requests ≡ none
      → (m' : Manager K) × (run dec
            (factory_created (made k f1)
              ∷ factory_accepted
              ∷ factory_created (made k f2)
              ∷ factory_accepted
              ∷ remove_factory k
              ∷ [])
            m
          ≡ went m' (offer_taken (some f1) ∷ offer_taken (some f2) ∷ []))
        × (get dec k m'.factories ≡ none)
  replaced_factory_forgotten k f1 f2 m p g =
      let m1 : Manager K = record m { factories = set dec k f1 m.factories; phase = selecting } in
      let m2 : Manager K = record m1 { factories = set dec k f2 m1.factories } in
      (
        record m2 { factories = delete dec k m2.factories },
        made_and_taken k f1 (factory_created (made k f2) ∷ factory_accepted ∷ remove_factory k ∷ [])
              m p g
            ∙ ap (λ r. and_then dec [] (and_then dec (offer_taken (some f1) ∷ []) r))
                (made_and_taken k f2 (remove_factory k ∷ []) m1 refl g)
            ∙ (unfold run round_at select_round in refl),
        get-delete_self dec k m2.factories,
      )
