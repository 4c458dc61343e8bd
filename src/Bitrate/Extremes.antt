-- ===== src/Bitrate/Extremes.antt =====
-- server/pubsub/remb.go: `Min` and `Max`, with the flag that has them computed anew.
use native.Mathlib.Decide.{ℕ_discrete}
use peer_calls.Base.{
  ℕ, ◌≡◌, ◌≢◌, ◌<◌, ◌⊎◌, refl, arith, true, false, Option, none, some, List, [], ◌∷◌, ◌||◌, All,
  Option-cases, Bool-cases, inl, inr,
}
use peer_calls.Base.Dict.{get, delete}
use peer_calls.Base.Keys.{IsMap, IsMap-delete, IsMap-set, delete-Lacks}
use peer_calls.Bitrate.{
  BitrateEstimator, new_bitrate_estimator, feed, remove_client_bitrate, remove_at,
  maybe_recalculate_min_max, min_of, max_of, is_extreme,
}
use peer_calls.Bitrate.Average.{Event, report_bitrate, client_left, asked, happen, happen_all}
use peer_calls.Bitrate.Values.{
  Positive, AreExtremes, All-delete, All-set, recalculate_loop-AreExtremes, AreExtremes-delete,
  AreExtremes-set,
}

-- An estimator whose extremes are right, or are to be computed anew.
record IsEstimated (r : BitrateEstimator) : Type 0 where
  is_map : IsMap r.estimates_by_client_id
  positive : Positive r.estimates_by_client_id
  exact : (r.needs_min_max_recalc ≡ true) ⊎ AreExtremes r.min r.max r.estimates_by_client_id

not_extreme :
    (o : Option ℕ) (r : BitrateEstimator)
    → is_extreme o r ≡ false
    → (o ≢ some r.min) × (o ≢ some r.max)
not_extreme none r h = (λ e. cc, λ e. cc)
not_extreme (some v) r h = (λ e. ground (arith, h, e), λ e. ground (arith, h, e))

exact-delete :
    (id : ℕ) (r : BitrateEstimator)
    → IsEstimated r
    → let m = r.estimates_by_client_id in
      ((is_extreme (get ℕ_discrete id m) r || r.needs_min_max_recalc) ≡ true)
      ⊎ AreExtremes r.min r.max (delete ℕ_discrete id m)
exact-delete id r h =
    elim (Bool-cases (is_extreme (get ℕ_discrete id r.estimates_by_client_id) r)) [
      | inl e ↦ inl (rw e refl)
      | inr e ↦ elim h.exact [
        | inl n ↦ inl (rw (e, n) refl)
        | inr x ↦
            let (nl, nh) = not_extreme (get ℕ_discrete id r.estimates_by_client_id) r e in
            inr (AreExtremes-delete r.min r.max id r.estimates_by_client_id h.is_map nl nh x)
      ]
    ]

feed-IsEstimated :
    (id est : ℕ) (r : BitrateEstimator) → 0 < est → IsEstimated r → IsEstimated (feed id est r)
unfolding feed
feed-IsEstimated id est r pos h =
    let m = delete ℕ_discrete id r.estimates_by_client_id in
    let l = delete-Lacks id r.estimates_by_client_id in
    record {
      is_map = IsMap-set id est m (IsMap-delete id r.estimates_by_client_id h.is_map);
      positive =
          All-set (λ e. 0 < e.1) id est m pos
            (All-delete (λ e. 0 < e.1) id r.estimates_by_client_id h.positive);
      exact = elim (exact-delete id r h) [
        | inl n ↦ inl n
        | inr x ↦ inr (AreExtremes-set r.min r.max id est m pos l x)
      ];
    }

remove-IsEstimated :
    (id : ℕ) (r : BitrateEstimator) → IsEstimated r → IsEstimated (remove_client_bitrate id r)
unfolding remove_client_bitrate
remove-IsEstimated id r h = elim (Option-cases (get ℕ_discrete id r.estimates_by_client_id)) [
  | inl e ↦ rw e (unfold remove_at in h)
  | inr (old, e) ↦
      let x : ((is_extreme (some old) r || r.needs_min_max_recalc) ≡ true)
          ⊎ AreExtremes r.min r.max (delete ℕ_discrete id r.estimates_by_client_id) =
        rw e at (exact-delete id r h) in
      rw e (
        unfold remove_at in
        record {
          is_map = IsMap-delete id r.estimates_by_client_id h.is_map;
          positive = All-delete (λ e. 0 < e.1) id r.estimates_by_client_id h.positive;
          exact = x;
        })
]

-- After the extremes are asked for, they are right.
recalculate-exact :
    (r : BitrateEstimator)
    → IsEstimated r
    → let r' = maybe_recalculate_min_max r in
      AreExtremes r'.min r'.max r.estimates_by_client_id
      × (r'.estimates_by_client_id ≡ r.estimates_by_client_id)
unfolding maybe_recalculate_min_max
recalculate-exact r h = elim (Bool-cases r.needs_min_max_recalc) [
  | inl e ↦ rw e (recalculate_loop-AreExtremes r.estimates_by_client_id h.positive, refl)
  | inr e ↦ elim h.exact [ inl n ↦ absurd (cc) | inr x ↦ rw e (x, refl) ]
]

recalculate-IsEstimated :
    (r : BitrateEstimator) → IsEstimated r → IsEstimated (maybe_recalculate_min_max r)
recalculate-IsEstimated r h =
    let (x, e) = recalculate-exact r h in
    record { is_map = rw e h.is_map; positive = rw e h.positive; exact = inr (rw e x) }

-- Clients report positive bitrates.
abbrev pub ReportsPositive : Event → Type 0
ReportsPositive (report_bitrate id est) = 0 < est
ReportsPositive (client_left id) = Unit
ReportsPositive asked = Unit

happen-IsEstimated :
    (e : Event) (r : BitrateEstimator)
    → ReportsPositive e
    → IsEstimated r
    → IsEstimated (happen e r)
unfolding happen
happen-IsEstimated (report_bitrate id est) r p h = feed-IsEstimated id est r p h
happen-IsEstimated (client_left id) r p h = remove-IsEstimated id r h
happen-IsEstimated asked r p h = recalculate-IsEstimated r h

happen_all-IsEstimated :
    (es : List Event) (r : BitrateEstimator)
    → All ReportsPositive es
    → IsEstimated r
    → IsEstimated (happen_all es r)
unfolding happen_all
happen_all-IsEstimated [] r p h = h
happen_all-IsEstimated (e ∷ es) r (p, ps) h =
    happen_all-IsEstimated es (happen e r) ps (happen-IsEstimated e r p h)

-- Where the reported bitrates are positive: whatever is reported, whoever leaves and whenever the
-- extremes are asked for, `Min` and `Max` return the lowest and the highest of the estimates that
-- there are, 0 if there are none.
pub estimator_extremes :
    (es : List Event)
    → All ReportsPositive es
    → let r = happen_all es new_bitrate_estimator in
      AreExtremes (min_of r).1 (max_of r).1 r.estimates_by_client_id
unfolding min_of max_of
estimator_extremes es p =
    (recalculate-exact (happen_all es new_bitrate_estimator)
      (happen_all-IsEstimated es new_bitrate_estimator p start)).0
  where
    start : IsEstimated new_bitrate_estimator
    start =
        unfold new_bitrate_estimator in
        record { is_map = tt; positive = tt; exact = inr (inl (refl, refl, refl)) }
