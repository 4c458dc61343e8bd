-- ===== src/Bitrate/Average.antt =====
-- server/pubsub/remb.go: the map of the estimates, their total and their average.
use native.Mathlib.Decide.{ℕ_discrete}
use mathlib.Core.Logic.{if_pos, if_neg}
use mathlib.Core.Path.{subst}
use peer_calls.Base.{
  ℕ, suc, ◌+◌, ◌-◌, ◌/◌, ◌≡◌, ap, refl, arith, Bool, true, false, List, [], ◌∷◌, ◌==◌,
  if◌then◌else◌, length, Option-cases, inl, inr,
}
use peer_calls.Base.Dict.{get, set, delete}
use peer_calls.Base.Keys.{Lacks, IsMap, delete-Lacks, Lacks-delete, IsMap-delete, IsMap-set}
use peer_calls.Bitrate.{
  BitrateEstimator, new_bitrate_estimator, feed, remove_client_bitrate, remove_at, or_zero,
  maybe_recalculate_min_max, recalculate_loop,
}

abbrev pub sum : List (ℕ × ℕ) → ℕ
sum [] = 0
sum ((id, est) ∷ m) = est + sum m

module _ (id : ℕ) where
  pub delete-sum :
      (m : List (ℕ × ℕ))
      → IsMap m
      → sum (delete ℕ_discrete id m) + or_zero (get ℕ_discrete id m) ≡ sum m
  unfolding delete get
  delete-sum [] h = refl
  delete-sum ((j, w) ∷ m) (l, h) = elim (ℕ_discrete j id) [
    | yes p ↦ rw (if_pos (ℕ_discrete j id) p) (
        rw (if_pos (ℕ_discrete j id) p)
          (omega (arith, ap sum (Lacks-delete id m (subst (λ t. Lacks t m) p l)))))
    | no n ↦
        rw (if_neg (ℕ_discrete j id) n)
          (rw (if_neg (ℕ_discrete j id) n) (omega (arith, delete-sum m h)))
  ]

  pub set-sum :
      (est : ℕ) (m : List (ℕ × ℕ))
      → Lacks id m
      → (sum (set ℕ_discrete id est m) ≡ est + sum m)
        × (length (set ℕ_discrete id est m) ≡ suc (length m))
  unfolding set
  set-sum est [] h = (refl, refl)
  set-sum est ((j, w) ∷ m) (n, h) =
      let (s, l) = set-sum est m h in
      rw (if_neg (ℕ_discrete j id) n) (omega (arith, s), omega (arith, l))

-- Each client is there once, the total is the sum of the estimates, and the average is the total
-- by their number.
pub record IsAveraged (r : BitrateEstimator) : Type 0 where
  pub is_map : IsMap r.estimates_by_client_id
  pub total : r.total_bitrate ≡ sum r.estimates_by_client_id
  pub average : r.avg ≡ (
      if length r.estimates_by_client_id == 0
      then 0
      else sum r.estimates_by_client_id / length r.estimates_by_client_id)

feed-IsAveraged : (id est : ℕ) (r : BitrateEstimator) → IsAveraged r → IsAveraged (feed id est r)
unfolding feed
feed-IsAveraged id est r h =
    let m = delete ℕ_discrete id r.estimates_by_client_id in
    let (s, l) = set-sum id est m (delete-Lacks id r.estimates_by_client_id) in
    let d = delete-sum id r.estimates_by_client_id h.is_map in
    let total : r.total_bitrate + est - or_zero (get ℕ_discrete id r.estimates_by_client_id)
        ≡ sum (set ℕ_discrete id est m) =
      omega (arith, s, d, h.total) in
    record {
      is_map = IsMap-set id est m (IsMap-delete id r.estimates_by_client_id h.is_map);
      total = total;
      average = rw total (rw l (ground arith));
    }

remove-IsAveraged :
    (id : ℕ) (r : BitrateEstimator) → IsAveraged r → IsAveraged (remove_client_bitrate id r)
unfolding remove_client_bitrate
remove-IsAveraged id r h = elim (Option-cases (get ℕ_discrete id r.estimates_by_client_id)) [
  | inl e ↦ rw e (unfold remove_at in h)
  | inr (old, e) ↦
      let m = delete ℕ_discrete id r.estimates_by_client_id in
      let d = delete-sum id r.estimates_by_client_id h.is_map in
      let total : r.total_bitrate - old ≡ sum m = omega (arith, d, ap or_zero e, h.total) in
      rw e (
        unfold remove_at in
        record {
          is_map = IsMap-delete id r.estimates_by_client_id h.is_map;
          total = total;
          average = rw total refl;
        })
]

-- What happens to an estimator: clients report, leave, and the lowest or highest is asked for.
pub data Event : Type 0 where
  report_bitrate : ℕ → ℕ → Event
  client_left : ℕ → Event
  asked : Event

unfoldable pub happen : Event → BitrateEstimator → BitrateEstimator
happen (report_bitrate id est) r = feed id est r
happen (client_left id) r = remove_client_bitrate id r
happen asked r = maybe_recalculate_min_max r

unfoldable pub happen_all : List Event → BitrateEstimator → BitrateEstimator
happen_all [] r = r
happen_all (e ∷ es) r = happen_all es (happen e r)

recalculate-IsAveraged :
    (r : BitrateEstimator) → IsAveraged r → IsAveraged (maybe_recalculate_min_max r)
unfolding maybe_recalculate_min_max
recalculate-IsAveraged r h = go r.needs_min_max_recalc
  where
    go :
        (b : Bool)
        → let (min, max) = recalculate_loop r.estimates_by_client_id (0, 0) in
          IsAveraged
            (if b then record r { min = min; max = max; needs_min_max_recalc = false } else r)
    go true = record { is_map = h.is_map; total = h.total; average = h.average }
    go false = h

pub happen-IsAveraged : (e : Event) (r : BitrateEstimator) → IsAveraged r → IsAveraged (happen e r)
unfolding happen
happen-IsAveraged (report_bitrate id est) r h = feed-IsAveraged id est r h
happen-IsAveraged (client_left id) r h = remove-IsAveraged id r h
happen-IsAveraged asked r h = recalculate-IsAveraged r h

happen_all-IsAveraged :
    (es : List Event) (r : BitrateEstimator) → IsAveraged r → IsAveraged (happen_all es r)
unfolding happen_all
happen_all-IsAveraged [] r h = h
happen_all-IsAveraged (e ∷ es) r h = happen_all-IsAveraged es (happen e r) (happen-IsAveraged e r h)

-- Whatever is reported, whoever leaves and whenever the extremes are asked for: each client counts
-- once, the total is the sum of the estimates, and the average is the total by their number, 0 if
-- there are none.
pub estimator_averages : (es : List Event) → IsAveraged (happen_all es new_bitrate_estimator)
estimator_averages es =
    happen_all-IsAveraged es new_bitrate_estimator
      (unfold new_bitrate_estimator in record { is_map = tt; total = refl; average = refl })
