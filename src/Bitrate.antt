-- ===== src/Bitrate.antt =====
-- server/pubsub/remb.go: the lowest, the highest and the average of the bitrates that the
-- subscribers of a track estimate. The sum, a float64, is a natural number: up to 2 ^ 53 floats add
-- and subtract natural numbers exactly.
pub mod Average
pub mod Values
pub mod Extremes
mod Examples
use native.Mathlib.Decide.{ℕ_discrete}
use peer_calls.Base.{
  ℕ, zero, suc, ◌+◌, ◌-◌, ◌/◌, Bool, true, false, Option, none, some, List, [], ◌∷◌, ltb, ◌==◌,
  ◌||◌, if◌then◌else◌, length,
}
use peer_calls.Base.Dict.{get, set, delete}

pub record BitrateEstimator : Type 0 where
  pub min : ℕ
  pub max : ℕ
  pub avg : ℕ
  pub needs_min_max_recalc : Bool
  pub total_bitrate : ℕ
  pub estimates_by_client_id : List (ℕ × ℕ)

unfoldable pub new_bitrate_estimator : BitrateEstimator
new_bitrate_estimator = record {
  min = 0;
  max = 0;
  avg = 0;
  needs_min_max_recalc = false;
  total_bitrate = 0;
  estimates_by_client_id = [];
}

-- `if r.min == 0 || estimatedBitrate < r.min`, and the same of the highest.
abbrev pub lower : ℕ → ℕ → ℕ
lower est min = if min == 0 || ltb est min then est else min

abbrev pub higher : ℕ → ℕ → ℕ
higher est max = if max == 0 || ltb max est then est else max

abbrev pub or_zero : Option ℕ → ℕ
or_zero none = 0
or_zero (some est) = est

-- Whether an estimate that goes away is the lowest or the highest.
abbrev pub is_extreme : Option ℕ → BitrateEstimator → Bool
is_extreme none r = false
is_extreme (some old) r = old == r.min || old == r.max

unfoldable pub feed : ℕ → ℕ → BitrateEstimator → BitrateEstimator
feed id est r =
    let old = get ℕ_discrete id r.estimates_by_client_id in
    let estimates = set ℕ_discrete id est (delete ℕ_discrete id r.estimates_by_client_id) in
    let total = r.total_bitrate + est - or_zero old in
    record {
      min = lower est r.min;
      max = higher est r.max;
      avg = total / length estimates;
      needs_min_max_recalc = is_extreme old r || r.needs_min_max_recalc;
      total_bitrate = total;
      estimates_by_client_id = estimates;
    }

-- The loop of `recalculateMinMax`.
unfoldable pub recalculate_loop : List (ℕ × ℕ) → ℕ × ℕ → ℕ × ℕ
recalculate_loop [] acc = acc
recalculate_loop ((id, est) ∷ m) (min, max) = recalculate_loop m (lower est min, higher est max)

unfoldable pub maybe_recalculate_min_max : BitrateEstimator → BitrateEstimator
maybe_recalculate_min_max r =
    let (min, max) = recalculate_loop r.estimates_by_client_id (0, 0) in
    if r.needs_min_max_recalc
    then record r { min = min; max = max; needs_min_max_recalc = false }
    else r

-- `Min` and `Max`.
unfoldable pub min_of : BitrateEstimator → BitrateEstimator × ℕ
min_of r = let r' = maybe_recalculate_min_max r in (r', r'.min)

unfoldable pub max_of : BitrateEstimator → BitrateEstimator × ℕ
max_of r = let r' = maybe_recalculate_min_max r in (r', r'.max)

unfoldable pub remove_at : ℕ → Option ℕ → BitrateEstimator → BitrateEstimator
remove_at id none r = r
remove_at id (some old) r =
    let estimates = delete ℕ_discrete id r.estimates_by_client_id in
    let total = r.total_bitrate - old in
    record r {
      avg = (if length estimates == 0 then 0 else total / length estimates);
      needs_min_max_recalc = is_extreme (some old) r || r.needs_min_max_recalc;
      total_bitrate = total;
      estimates_by_client_id = estimates;
    }

unfoldable pub remove_client_bitrate : ℕ → BitrateEstimator → BitrateEstimator
unfolding remove_at
remove_client_bitrate id r = remove_at id (get ℕ_discrete id r.estimates_by_client_id) r
