-- ===== src/Factories/Examples.antt =====
-- A manager whose factories are asked for, fail and are replaced.
use native.Mathlib.Decide.{ℕ_discrete}
use peer_calls.Base.{ℕ, ◌+◌, ◌≡◌, refl, arith, true, none, some, List, [], ◌∷◌, All}
use peer_calls.Base.Dict.{get, set, delete}
use peer_calls.Factories.{
  NewFactoryResponse, factory_exists, pending_factory_exists, closed_pipe, factory_failed,
  selecting, offering, torn_down, Manager, Input, udp_conn, new_factory_request, factory_created,
  remove_factory, factory_accepted, teardown, Effect, create_factory, respond, offer_taken,
  close_factory, went, new_manager, run, round_at, select_round, handle_new_factory_request,
  request_at, handle_new_factory_response_at, add_factory, finish, close_factories, refuse_pending,
  offer_round,
}
use peer_calls.Factories.Answers.{waiting, answers, asked_all, requests_answered}
use peer_calls.Factories.Stuck.{made, IsRequest, failed_factory_blocks, replaced_factory_forgotten}

-- Address 5 is asked for twice, a connection from address 6 comes, and the manager is closed.
abbrev asked_twice : List (Input ℕ)
asked_twice =
    new_factory_request 5 0 true
    ∷ new_factory_request 5 1 true
    ∷ factory_created (made ℕ_discrete 5 10)
    ∷ new_factory_request 7 2 true
    ∷ udp_conn 6
    ∷ teardown
    ∷ []

abbrev twice_end : Manager ℕ
twice_end = record { factories = []; pending_requests = (7, 2) ∷ []; phase = torn_down }

abbrev twice_effects : List (Effect ℕ)
twice_effects =
    create_factory 5
    ∷ respond 1 (record { raddr = 5; factory = none; error = some pending_factory_exists })
    ∷ respond 0 (made ℕ_discrete 5 10)
    ∷ create_factory 7
    ∷ create_factory 6
    ∷ close_factory 10
    ∷ respond 2 (record { raddr = 7; factory = none; error = some closed_pipe })
    ∷ []

asked_twice-run : run ℕ_discrete asked_twice new_manager ≡ went twice_end twice_effects
unfolding run new_manager get set delete ℕ_discrete round_at select_round handle_new_factory_request
    request_at handle_new_factory_response_at add_factory finish close_factories refuse_pending
asked_twice-run = refl

requests_answered_example :
    answers {K = ℕ} 2 twice_effects + waiting 2 torn_down twice_end ≡ asked_all 2 asked_twice
requests_answered_example =
    requests_answered 2 ℕ_discrete asked_twice twice_end twice_effects asked_twice-run

abbrev failure : NewFactoryResponse ℕ
failure = record { raddr = 6; factory = none; error = some factory_failed }

abbrev one_factory : Manager ℕ
one_factory = record { factories = (5, 10) ∷ []; pending_requests = []; phase = selecting }

one_factory-run :
    run ℕ_discrete (factory_created failure ∷ new_factory_request 5 0 true ∷ []) one_factory
    ≡ went
        (record one_factory { phase = offering failure })
        (respond 0 (record { raddr = 5; factory = none; error = some factory_exists }) ∷ [])
unfolding run get ℕ_discrete round_at select_round handle_new_factory_response_at offer_round
    handle_new_factory_request request_at
one_factory-run = refl

failed_factory_blocks_example :
    (offering failure ≡ offering failure)
    × All (IsRequest ℕ_discrete) (new_factory_request 5 0 true ∷ [])
unfolding get
failed_factory_blocks_example =
    failed_factory_blocks ℕ_discrete failure factory_failed (new_factory_request 5 0 true ∷ [])
      one_factory (record one_factory { phase = offering failure })
      (respond 0 (record { raddr = 5; factory = none; error = some factory_exists }) ∷ []) refl refl
      refl ((λ e. omega (arith, e)), tt) one_factory-run

replaced_factory_forgotten_example :
    (m' : Manager ℕ) × (run ℕ_discrete
        (factory_created (made ℕ_discrete 6 1)
          ∷ factory_accepted
          ∷ factory_created (made ℕ_discrete 6 2)
          ∷ factory_accepted
          ∷ remove_factory 6
          ∷ [])
        one_factory
      ≡ went m' (offer_taken (some 1) ∷ offer_taken (some 2) ∷ []))
    × (get ℕ_discrete 6 m'.factories ≡ none)
unfolding get
replaced_factory_forgotten_example =
    replaced_factory_forgotten ℕ_discrete 6 1 2 one_factory refl refl
