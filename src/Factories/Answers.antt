-- ===== src/Factories/Answers.antt =====
-- server/udptransport2/manager.go: every request for a factory is answered.
use mathlib.Core.Logic.{if_pos, if_neg}
use mathlib.Core.Path.{subst}
use peer_calls.Base.{
  ℕ, ◌+◌, ◌≡◌, ◌≢◌, ◌∙◌, refl, sym, ap, arith, Bool, true, false, Option, none, some, List, [], ◌∷◌,
  ◌++◌, All, ◌==◌, if◌then◌else◌,
}
use peer_calls.Base.Dict.{get, set, delete}
use peer_calls.Base.Entries.{IsMap, IsMap-set, IsMap-delete, delete-Lacks}
use peer_calls.Factories.{
  NewFactoryResponse, ManagerError, Phase, selecting, offering, torn_down, Manager, Input, udp_conn,
  udp_conns_end, new_factory_request, factory_created, list_factories_request, remove_factory,
  factory_accepted, teardown, Effect, respond, offer_taken, Round, waits, went, new_manager,
  close_factories, refuse_pending, finish, close_created, before, went_with, add_factory,
  request_at, handle_new_factory_request, handle_new_factory_response_at, select_round,
  keep_offered, accepted_at, offer_round, round_at, and_then, run,
}

abbrev pub one : ℕ → ℕ → ℕ
one r s = if s == r then 1 else 0

module _ {K : Type 0} (r : ℕ) where
  -- How often the request is among the values of a map.
  abbrev pub count : List (K × ℕ) → ℕ
  count [] = 0
  count ((k, s) ∷ m) = one r s + count m

  -- How often the request was made.
  abbrev pub asked : Input K → ℕ
  asked (new_factory_request k s gives) = one r s
  asked _ = 0

  abbrev pub asked_all : List (Input K) → ℕ
  asked_all [] = 0
  asked_all (i ∷ is) = asked i + asked_all is

  -- How often the request was answered.
  abbrev pub answered : Effect K → ℕ
  answered (respond s res) = one r s
  answered _ = 0

  abbrev pub answers : List (Effect K) → ℕ
  answers [] = 0
  answers (e ∷ es) = answered e + answers es

  -- The requests that wait for a factory; after the end there is none.
  abbrev pub waiting : Phase K → Manager K → ℕ
  waiting torn_down m = 0
  waiting _ m = count m.pending_requests

  answers-append : (es fs : List (Effect K)) → answers (es ++ fs) ≡ answers es + answers fs
  answers-append [] fs = omega arith
  answers-append (e ∷ es) fs = omega (arith, answers-append es fs)

  answers-close_factories : (fs : List (K × ℕ)) → answers (close_factories fs) ≡ 0
  unfolding close_factories
  answers-close_factories [] = refl
  answers-close_factories ((k, f) ∷ fs) = omega (arith, answers-close_factories fs)

  answers-refuse_pending : (rs : List (K × ℕ)) → answers (refuse_pending rs) ≡ count rs
  unfolding refuse_pending
  answers-refuse_pending [] = refl
  answers-refuse_pending ((k, s) ∷ rs) = omega (arith, answers-refuse_pending rs)

  answers-finish : (m : Manager K) → answers (finish m).1 ≡ count m.pending_requests
  unfolding finish
  answers-finish m = omega (
    arith,
    answers-append (close_factories m.factories) (refuse_pending m.pending_requests),
    answers-close_factories m.factories,
    answers-refuse_pending m.pending_requests,
  )

  module _ (dec : Discrete K) where
    count-set :
        (k : K) (s : ℕ) (m : List (K × ℕ))
        → get dec k m ≡ none
        → count (set dec k s m) ≡ count m + one r s
    unfolding get set
    count-set k s [] e = omega arith
    count-set k s ((j, w) ∷ m) e = elim (dec j k) [
      | yes p ↦ cc (e, if_pos (dec j k) p (some w) (get dec k m))
      | no n ↦
          rw (if_neg (dec j k) n)
            (omega (arith, count-set k s m (sym (if_neg (dec j k) n _ _) ∙ e)))
    ]

    count-delete :
        (k : K) (s : ℕ) (m : List (K × ℕ))
        → IsMap m
        → get dec k m ≡ some s
        → count m ≡ one r s + count (delete dec k m)
    unfolding get delete
    count-delete k s [] h e = cc e
    count-delete k s ((j, w) ∷ m) (l, h) e = elim (dec j k) [
      | yes p ↦
          let same : w ≡ s = cc (e, if_pos (dec j k) p (some w) (get dec k m)) in
          let rest = delete-Lacks dec k m (subst (λ i. All (λ f. f.0 ≢ i) m) p l) in
          rw (if_pos (dec j k) p) (omega (arith, ap (one r) same, ap count rest))
      | no n ↦
          rw (if_neg (dec j k) n)
            (omega (arith, count-delete k s m h (sym (if_neg (dec j k) n _ _) ∙ e)))
    ]

    -- The answers with what waits then, and the requests one to an address.
    abbrev pub Balanced : ℕ → Round K → Type 0
    Balanced n waits = Unit
    Balanced n (went m es) = (answers es + waiting m.phase m ≡ n) × IsMap m.pending_requests

    waiting-up :
        (p : Phase K) (m : Manager K) → p ≢ torn_down → waiting p m ≡ count m.pending_requests
    waiting-up selecting m n = refl
    waiting-up (offering res) m n = refl
    waiting-up torn_down m n = absurd (n refl)

    add_factory-same :
        (k : K) (f : Option ℕ) (m : Manager K)
        → ((add_factory dec k f m).pending_requests ≡ m.pending_requests)
          × ((add_factory dec k f m).phase ≡ m.phase)
    unfolding add_factory
    add_factory-same k none m = (refl, refl)
    add_factory-same k (some f) m = (refl, refl)

    request_at-Balanced :
        (k : K) (s : ℕ) (f pending : Option ℕ) (gives : Bool) (m : Manager K)
        → IsMap m.pending_requests
        → m.phase ≢ torn_down
        → get dec k m.pending_requests ≡ pending
        → Balanced
            (count m.pending_requests + one r s)
            (went_with (request_at dec k s f pending gives m))
    unfolding request_at
    request_at-Balanced k s (some f) pending gives m h n e =
        (omega (arith, waiting-up m.phase m n), h)
    request_at-Balanced k s none (some p) gives m h n e = (omega (arith, waiting-up m.phase m n), h)
    request_at-Balanced k s none none false m h n e = (omega (arith, waiting-up m.phase m n), h)
    request_at-Balanced k s none none true m h n e =
        let m' : Manager K = record m { pending_requests = set dec k s m.pending_requests } in
        (
          omega (arith, waiting-up m.phase m' n, count-set k s m.pending_requests e),
          IsMap-set dec k s m.pending_requests h,
        )

    finish-Balanced :
        (m : Manager K) (es : List (Effect K))
        → IsMap m.pending_requests
        → answers es ≡ 0
        → Balanced (count m.pending_requests) (went_with (before es (finish m)))
    unfolding finish
    finish-Balanced m es h e = (
      omega (
        arith,
        e,
        answers-append es (close_factories m.factories ++ refuse_pending m.pending_requests),
        answers-finish m,
      ),
      h,
    )

    answers-close_created : (f : Option ℕ) → answers (close_created f) ≡ 0
    answers-close_created none = refl
    answers-close_created (some f) = refl

    response_at-Balanced :
        (res : NewFactoryResponse K) (pending : Option ℕ) (m : Manager K)
        → IsMap m.pending_requests
        → m.phase ≢ torn_down
        → get dec res.raddr m.pending_requests ≡ pending
        → Balanced
            (count m.pending_requests + 0)
            (went_with (handle_new_factory_response_at dec res pending m))
    unfolding handle_new_factory_response_at
    response_at-Balanced res none m h n e = (omega arith, h)
    response_at-Balanced res (some s) m h n e =
        let rest = delete dec res.raddr m.pending_requests in
        let m1 : Manager K = record m { pending_requests = rest } in
        let m' = add_factory dec res.raddr res.factory m1 in
        let (same, phase) = add_factory-same res.raddr res.factory m1 in
        (
          omega (
            arith,
            waiting-up m'.phase m' (λ q. n (sym phase ∙ q)),
            ap count same,
            count-delete res.raddr s m.pending_requests h e,
          ),
          subst IsMap (sym same) (IsMap-delete dec res.raddr m.pending_requests h),
        )

    -- The offered response is passed on: nothing waits more or less.
    keep_offered-Balanced :
        (res : NewFactoryResponse K) (es : List (Effect K)) (m : Manager K)
        → IsMap m.pending_requests
        → Balanced (answers es + count m.pending_requests) (went (keep_offered dec res m) es)
    keep_offered-Balanced res es m h =
        let m1 : Manager K = record m { phase = selecting } in
        let m' = keep_offered dec res m in
        let (same, phase) = add_factory-same res.raddr res.factory m1 in
        let up : ◌≢◌ {A = Phase K} selecting torn_down = λ q. cc q in
        (
          omega (arith, waiting-up m'.phase m' (λ q. up (sym phase ∙ q)), ap count same),
          subst IsMap (sym same) h,
        )

    finish_round :
        (m : Manager K) (es : List (Effect K))
        → IsMap m.pending_requests
        → answers es ≡ 0
        → Balanced (count m.pending_requests + 0) (went_with (before es (finish m)))
    finish_round m es h e =
        subst (λ n. Balanced n (went_with (before es (finish m)))) (omega arith)
          (finish-Balanced m es h e)

    select_round-Balanced :
        (i : Input K) (m : Manager K)
        → IsMap m.pending_requests
        → m.phase ≢ torn_down
        → Balanced (count m.pending_requests + asked i) (select_round dec i m)
    unfolding select_round handle_new_factory_request
    select_round-Balanced (udp_conn k) m h n = (omega (arith, waiting-up m.phase m n), h)
    select_round-Balanced udp_conns_end m h n = finish_round m [] h refl
    select_round-Balanced (new_factory_request k s gives) m h n =
        request_at-Balanced k s (get dec k m.factories) (get dec k m.pending_requests) gives m h n
          refl
    select_round-Balanced (factory_created res) m h n =
        response_at-Balanced res (get dec res.raddr m.pending_requests) m h n refl
    select_round-Balanced (list_factories_request s) m h n =
        (omega (arith, waiting-up m.phase m n), h)
    select_round-Balanced (remove_factory k) m h n =
        (omega (arith, waiting-up m.phase (record m { factories = delete dec k m.factories }) n), h)
    select_round-Balanced factory_accepted m h n = tt
    select_round-Balanced teardown m h n = finish_round m [] h refl

    offer_round-Balanced :
        (res : NewFactoryResponse K) (i : Input K) (m : Manager K)
        → IsMap m.pending_requests
        → m.phase ≢ torn_down
        → Balanced (count m.pending_requests + asked i) (offer_round dec res i m)
    unfolding offer_round handle_new_factory_request
    offer_round-Balanced res (udp_conn k) m h n = tt
    offer_round-Balanced res udp_conns_end m h n = tt
    offer_round-Balanced res (new_factory_request k s gives) m h n = elim (dec k res.raddr) [
      | yes e ↦ rw (if_pos (dec k res.raddr) e) (
          subst (λ n. Balanced n (went (keep_offered dec res m) (respond s res ∷ []))) (omega arith)
            (keep_offered-Balanced res (respond s res ∷ []) m h))
      | no ne ↦ rw (if_neg (dec k res.raddr) ne) (
          request_at-Balanced k s (get dec k m.factories) (get dec k m.pending_requests) gives m h n
            refl)
    ]
    offer_round-Balanced res (factory_created other) m h n = tt
    offer_round-Balanced res (list_factories_request s) m h n = tt
    offer_round-Balanced res (remove_factory k) m h n = tt
    offer_round-Balanced res factory_accepted m h n = accepted res.error
      where
        accepted :
            (e : Option ManagerError)
            → Balanced (count m.pending_requests + 0) (accepted_at dec e res m)
        accepted (some e) = tt
        accepted none =
            subst (λ n. Balanced n (went (keep_offered dec res m) (offer_taken res.factory ∷ [])))
              (omega arith) (keep_offered-Balanced res (offer_taken res.factory ∷ []) m h)
    offer_round-Balanced res teardown m h n =
        finish_round m (close_created res.factory) h (answers-close_created res.factory)

    round_at-Balanced :
        (p : Phase K) (i : Input K) (m : Manager K)
        → IsMap m.pending_requests
        → m.phase ≡ p
        → Balanced (waiting p m + asked i) (round_at dec p i m)
    unfolding round_at
    round_at-Balanced selecting i m h e = select_round-Balanced i m h (λ q. cc (e, q))
    round_at-Balanced (offering res) i m h e = offer_round-Balanced res i m h (λ q. cc (e, q))
    round_at-Balanced torn_down i m h e = tt

    and_then-Balanced :
        (es : List (Effect K)) (rest : Round K) (left n later : ℕ)
        → answers es + left ≡ n
        → Balanced (left + later) rest
        → Balanced (n + later) (and_then dec es rest)
    and_then-Balanced es waits left n later e h = tt
    and_then-Balanced es (went m fs) left n later e (b, h) =
        (omega (arith, e, b, answers-append es fs), h)

    through :
        (is : List (Input K)) (round : Round K) (n later : ℕ)
        → Balanced n round
        → ((m' : Manager K)
            → IsMap m'.pending_requests
            → Balanced (waiting m'.phase m' + later) (run dec is m'))
        → Balanced
            (n + later)
            (elim round [ waits ↦ waits | went m' es ↦ and_then dec es (run dec is m') ])
    through is waits n later h rest = tt
    through is (went m' es) n later (b, h) rest =
        and_then-Balanced es (run dec is m') (waiting m'.phase m') n later b (rest m' h)

    run-Balanced :
        (is : List (Input K)) (m : Manager K)
        → IsMap m.pending_requests
        → Balanced (waiting m.phase m + asked_all is) (run dec is m)
    unfolding run
    run-Balanced [] m h = (omega arith, h)
    run-Balanced (i ∷ is) m h =
        subst (λ n. Balanced n (run dec (i ∷ is) m)) (omega arith)
          (through is (round_at dec m.phase i m) (waiting m.phase m + asked i) (asked_all is)
            (round_at-Balanced m.phase i m h refl) (λ m' h'. run-Balanced is m' h'))

    -- Every request for a factory is answered once: after a run of a manager, it was answered as often
    -- as it was made, less the times that it still waits for its factory. After the end none waits,
    -- so that all were answered, those that waited too.
    pub requests_answered :
        (is : List (Input K)) (m : Manager K) (es : List (Effect K))
        → run dec is new_manager ≡ went m es
        → answers es + waiting m.phase m ≡ asked_all is
    unfolding new_manager
    requests_answered is m es e =
        (subst (Balanced (asked_all is)) e (
          subst (λ n. Balanced n (run dec is new_manager)) (omega arith)
            (run-Balanced is new_manager tt))).0
