-- ===== src/Factories.antt =====
-- server/udptransport2/manager.go: the loop `start` of the `Manager`, which has a factory of
-- transports for each remote address. The muxer below it and the making of a factory are outside:
-- an input says what they give. Factories and the channels of requests are numbers. What the
-- `select` of the present phase receives is an input; an input that no case of it receives waits.
pub mod Answers
pub mod Stuck
mod Examples
use mathlib.Core.Logic.{ite}
use peer_calls.Base.{ℕ, Bool, true, false, Option, none, some, List, [], ◌∷◌, ◌++◌, if◌then◌else◌}
use peer_calls.Base.Dict.{get, set, delete}

pub data ManagerError : Type 0 where
  factory_exists pending_factory_exists conn_failed factory_failed closed_pipe : ManagerError

pub record NewFactoryResponse {ℓ} (K : Type ℓ) : Type ℓ where
  pub raddr : K
  pub factory : Option ℕ
  pub error : Option ManagerError

-- The outer `select`, the one of `handleNewFactoryResponse` with its response, and the end.
pub data Phase {ℓ} (K : Type ℓ) : Type ℓ where
  selecting : Phase K
  offering : NewFactoryResponse K → Phase K
  torn_down : Phase K

pub record Manager {ℓ} (K : Type ℓ) : Type ℓ where
  pub factories : List (K × ℕ)
  pub pending_requests : List (K × ℕ)
  pub phase : Phase K

-- A request comes with its channel, and with whether the muxer gives it a connection.
pub data Input {ℓ} (K : Type ℓ) : Type ℓ where
  udp_conn : K → Input K
  udp_conns_end : Input K
  new_factory_request : K → ℕ → Bool → Input K
  factory_created : NewFactoryResponse K → Input K
  list_factories_request : ℕ → Input K
  remove_factory : K → Input K
  factory_accepted : Input K
  teardown : Input K

pub data Effect {ℓ} (K : Type ℓ) : Type ℓ where
  create_factory : K → Effect K
  respond : ℕ → NewFactoryResponse K → Effect K
  list_factories : ℕ → List ℕ → Effect K
  offer_taken : Option ℕ → Effect K
  close_factory : ℕ → Effect K

pub data Round {ℓ} (K : Type ℓ) : Type ℓ where
  waits : Round K
  went : Manager K → List (Effect K) → Round K

unfoldable pub new_manager {ℓ} : {K : Type ℓ} → Manager K
new_manager = record { factories = []; pending_requests = []; phase = selecting }

unfoldable pub close_factories {ℓ} : {K : Type ℓ} → List (K × ℕ) → List (Effect K)
close_factories [] = []
close_factories ((k, f) ∷ fs) = close_factory f ∷ close_factories fs

unfoldable pub refuse_pending {ℓ} : {K : Type ℓ} → List (K × ℕ) → List (Effect K)
refuse_pending [] = []
refuse_pending ((k, r) ∷ rs) =
    respond r (record { raddr = k; factory = none; error = some closed_pipe }) ∷ refuse_pending rs

-- The deferred function.
unfoldable pub finish {ℓ} : {K : Type ℓ} → Manager K → Manager K × List (Effect K)
finish m = (
  record m { factories = []; phase = torn_down },
  close_factories m.factories ++ refuse_pending m.pending_requests,
)

abbrev pub values {ℓ} : {K : Type ℓ} → List (K × ℕ) → List ℕ
values [] = []
values ((k, f) ∷ fs) = f ∷ values fs

abbrev pub close_created {ℓ} : {K : Type ℓ} → Option ℕ → List (Effect K)
close_created none = []
close_created (some f) = close_factory f ∷ []

abbrev pub before {ℓ} :
    {K : Type ℓ} → List (Effect K) → Manager K × List (Effect K) → Manager K × List (Effect K)
before es (m, fs) = (m, es ++ fs)

abbrev pub went_with {ℓ} : {K : Type ℓ} → Manager K × List (Effect K) → Round K
went_with (m, es) = went m es

module _ {ℓ} {K : Type ℓ} (dec : Discrete K) where
  -- `addFactory`, if there is one.
  unfoldable pub add_factory : K → Option ℕ → Manager K → Manager K
  add_factory k none m = m
  add_factory k (some f) m = record m { factories = set dec k f m.factories }

  abbrev pub refuse : K → ℕ → ManagerError → Manager K → Manager K × List (Effect K)
  refuse k r e m = (m, respond r (record { raddr = k; factory = none; error = some e }) ∷ [])

  -- By the factory of the address, its pending request, and whether the muxer gives a connection.
  unfoldable pub request_at :
      K → ℕ → Option ℕ → Option ℕ → Bool → Manager K → Manager K × List (Effect K)
  request_at k r (some f) pending gives m = refuse k r factory_exists m
  request_at k r none (some p) gives m = refuse k r pending_factory_exists m
  request_at k r none none false m = refuse k r conn_failed m
  request_at k r none none true m =
      (record m { pending_requests = set dec k r m.pending_requests }, create_factory k ∷ [])

  unfoldable pub handle_new_factory_request : K → ℕ → Bool → Manager K → Manager K × List (Effect K)
  handle_new_factory_request k r gives m =
      request_at k r (get dec k m.factories) (get dec k m.pending_requests) gives m

  -- The start of `handleNewFactoryResponse`, by the pending request of the address.
  unfoldable pub handle_new_factory_response_at :
      NewFactoryResponse K → Option ℕ → Manager K → Manager K × List (Effect K)
  handle_new_factory_response_at res (some r) m = (
    add_factory res.raddr res.factory
        (record m { pending_requests = delete dec res.raddr m.pending_requests }),
    respond r res ∷ [],
  )
  handle_new_factory_response_at res none m = (record m { phase = offering res }, [])

  -- A round of the loop of `start`.
  unfoldable pub select_round : Input K → Manager K → Round K
  select_round (udp_conn k) m = went m (create_factory k ∷ [])
  select_round udp_conns_end m = went_with (finish m)
  select_round (new_factory_request k r gives) m =
      went_with (handle_new_factory_request k r gives m)
  select_round (factory_created res) m =
      went_with (handle_new_factory_response_at res (get dec res.raddr m.pending_requests) m)
  select_round (list_factories_request r) m = went m (list_factories r (values m.factories) ∷ [])
  select_round (remove_factory k) m = went (record m { factories = delete dec k m.factories }) []
  select_round factory_accepted m = waits
  select_round teardown m = went_with (finish m)

  -- The response is passed on, and the loop of `start` goes on.
  abbrev pub keep_offered : NewFactoryResponse K → Manager K → Manager K
  keep_offered res m = add_factory res.raddr res.factory (record m { phase = selecting })

  -- A send on the nil channel, which stands in for `factoriesChannel` after an error, waits.
  abbrev pub accepted_at : Option ManagerError → NewFactoryResponse K → Manager K → Round K
  accepted_at (some e) res m = waits
  accepted_at none res m = went (keep_offered res m) (offer_taken res.factory ∷ [])

  -- A round of the loop of `handleNewFactoryResponse`.
  unfoldable pub offer_round : NewFactoryResponse K → Input K → Manager K → Round K
  offer_round res (udp_conn k) m = waits
  offer_round res udp_conns_end m = waits
  offer_round res (new_factory_request k r gives) m =
      ite (dec k res.raddr) (went (keep_offered res m) (respond r res ∷ []))
        (went_with (handle_new_factory_request k r gives m))
  offer_round res (factory_created other) m = waits
  offer_round res (list_factories_request r) m = waits
  offer_round res (remove_factory k) m = waits
  offer_round res factory_accepted m = accepted_at res.error res m
  offer_round res teardown m = went_with (before (close_created res.factory) (finish m))

  unfoldable pub round_at : Phase K → Input K → Manager K → Round K
  round_at selecting i m = select_round i m
  round_at (offering res) i m = offer_round res i m
  round_at torn_down i m = waits

  abbrev pub and_then : List (Effect K) → Round K → Round K
  and_then es waits = waits
  and_then es (went m fs) = went m (es ++ fs)

  -- The rounds on inputs, if each of them is received in its turn.
  unfoldable pub run : List (Input K) → Manager K → Round K
  run [] m = went m []
  run (i ∷ is) m = elim (round_at m.phase i m) [
    | waits ↦ waits
    | went m' es ↦ and_then es (run is m')
  ]
