-- ===== src/Bitrate/Values.antt =====
-- server/pubsub/remb.go: the lowest and the highest of a map of estimates, and the loop that
-- computes them.
use native.Mathlib.Decide.{ℕ_discrete}
use mathlib.Core.Logic.{if_pos, if_neg}
use mathlib.Core.Path.{subst}
use peer_calls.Base.{
  ℕ, ◌≡◌, ◌≢◌, ◌≤◌, ◌<◌, ◌⊎◌, ap, refl, arith, Bool, true, false, some, List, [], ◌∷◌, ◌==◌, ◌||◌,
  All, Bool-cases, inl, inr,
}
use peer_calls.Base.Dict.{get, set, delete}
use peer_calls.Base.Keys.{Lacks, IsMap, Lacks-delete}
use peer_calls.Bitrate.{lower, higher, recalculate_loop}

-- Whether somebody estimates `v`.
abbrev pub has_value : ℕ → List (ℕ × ℕ) → Bool
has_value v [] = false
has_value v ((id, est) ∷ m) = v == est || has_value v m

abbrev pub Positive : List (ℕ × ℕ) → Type 0
Positive m = All (λ e. 0 < e.1) m

abbrev Between : ℕ → ℕ → List (ℕ × ℕ) → Type 0
Between lo hi m = All (λ e. (lo ≤ e.1) × (e.1 ≤ hi) × (0 < e.1)) m

-- The lowest and the highest of positive estimates, or 0 and 0 where there are none.
abbrev pub AreExtremes : ℕ → ℕ → List (ℕ × ℕ) → Type 0
AreExtremes lo hi m =
    ((m ≡ []) × (lo ≡ 0) × (hi ≡ 0))
    ⊎ (All (λ e. (lo ≤ e.1) × (e.1 ≤ hi) × (0 < e.1)) m
        × (has_value lo m ≡ true)
        × (has_value hi m ≡ true))

Between-wider :
    (lo hi lo' hi' : ℕ) (m : List (ℕ × ℕ))
    → lo' ≤ lo
    → hi ≤ hi'
    → Between lo hi m
    → Between lo' hi' m
Between-wider lo hi lo' hi' [] a b h = tt
Between-wider lo hi lo' hi' (e ∷ m) a b ((x, y, z), h) =
    ((omega arith, omega arith, z), Between-wider lo hi lo' hi' m a b h)

module _ (P : ℕ × ℕ → Type 0) where
  pub All-delete : (id : ℕ) (m : List (ℕ × ℕ)) → All P m → All P (delete ℕ_discrete id m)
  unfolding delete
  All-delete id [] h = tt
  All-delete id ((j, w) ∷ m) (b, h) = elim (ℕ_discrete j id) [
    | yes p ↦ rw (if_pos (ℕ_discrete j id) p) (All-delete id m h)
    | no n ↦ rw (if_neg (ℕ_discrete j id) n) (b, All-delete id m h)
  ]

  pub All-set :
      (id est : ℕ) (m : List (ℕ × ℕ)) → P (id, est) → All P m → All P (set ℕ_discrete id est m)
  unfolding set
  All-set id est [] x h = (x, tt)
  All-set id est ((j, w) ∷ m) x (b, h) = elim (ℕ_discrete j id) [
    | yes p ↦ rw (if_pos (ℕ_discrete j id) p) (x, h)
    | no n ↦ rw (if_neg (ℕ_discrete j id) n) (b, All-set id est m x h)
  ]

has_value-delete :
    (v id : ℕ) (m : List (ℕ × ℕ))
    → get ℕ_discrete id m ≢ some v
    → IsMap m
    → has_value v m ≡ true
    → has_value v (delete ℕ_discrete id m) ≡ true
unfolding get delete
has_value-delete v id [] ne i h = h
has_value-delete v id ((j, w) ∷ m) ne (l, i) h = elim (ℕ_discrete j id) [
  | yes p ↦
      let gone = Lacks-delete id m (subst (λ t. Lacks t m) p l) in
      let other : w ≢ v = λ e. ne (rw (if_pos (ℕ_discrete j id) p) (ap some e)) in
      rw (if_pos (ℕ_discrete j id) p) (rw gone (ground (arith, h, other)))
  | no n ↦
      let ih = has_value-delete v id m (λ e. ne (rw (if_neg (ℕ_discrete j id) n) e)) i in
      rw (if_neg (ℕ_discrete j id) n) (ground (arith, h, ih))
]

has_value-set :
    (v id est : ℕ) (m : List (ℕ × ℕ))
    → Lacks id m
    → has_value v (set ℕ_discrete id est m) ≡ (has_value v m || (v == est))
unfolding set
has_value-set v id est [] l = ground arith
has_value-set v id est ((j, w) ∷ m) (n, l) =
    rw (if_neg (ℕ_discrete j id) n) (ground (arith, has_value-set v id est m l))

-- The loop, from the lowest `lo` and the highest `hi` of what it has passed.
recalculate_loop-from :
    (m : List (ℕ × ℕ)) (lo hi : ℕ)
    → 0 < lo
    → lo ≤ hi
    → Positive m
    → let (lo', hi') = recalculate_loop m (lo, hi) in
      (lo' ≤ lo)
      × (hi ≤ hi')
      × Between lo' hi' m
      × ((lo' == lo || has_value lo' m) ≡ true)
      × ((hi' == hi || has_value hi' m) ≡ true)
unfolding recalculate_loop
recalculate_loop-from [] lo hi a b h = (omega arith, omega arith, tt, ground arith, ground arith)
recalculate_loop-from ((id, est) ∷ m) lo hi a b (z, h) =
    let (p, q, r, s, t) =
      recalculate_loop-from m (lower est lo) (higher est hi) (ground arith) (ground arith) h in
    (
      ground (arith, p),
      ground (arith, q),
      ((ground (arith, p), ground (arith, q), z), r),
      ground (arith, s),
      ground (arith, t),
    )

pub recalculate_loop-AreExtremes :
    (m : List (ℕ × ℕ))
    → Positive m
    → let (lo, hi) = recalculate_loop m (0, 0) in AreExtremes lo hi m
unfolding recalculate_loop
recalculate_loop-AreExtremes [] h = inl (refl, refl, refl)
recalculate_loop-AreExtremes ((id, est) ∷ m) (z, h) =
    let (p, q, r, s, t) = recalculate_loop-from m est est z (omega arith) h in
    inr (((p, q, z), r), s, t)

delete_nil : (id : ℕ) (m : List (ℕ × ℕ)) → m ≡ [] → delete ℕ_discrete id m ≡ []
delete_nil id m e = rw e (unfold delete in refl)

-- Without an estimate that is neither the lowest nor the highest, these stay.
pub AreExtremes-delete :
    (lo hi id : ℕ) (m : List (ℕ × ℕ))
    → IsMap m
    → get ℕ_discrete id m ≢ some lo
    → get ℕ_discrete id m ≢ some hi
    → AreExtremes lo hi m
    → AreExtremes lo hi (delete ℕ_discrete id m)
AreExtremes-delete lo hi id m i nl nh (inl (e, l, h)) = inl (delete_nil id m e, l, h)
AreExtremes-delete lo hi id m i nl nh (inr (b, l, h)) = inr (
  All-delete (λ e. (lo ≤ e.1) × (e.1 ≤ hi) × (0 < e.1)) id m b,
  has_value-delete lo id m nl i l,
  has_value-delete hi id m nh i h,
)

Between-value :
    (lo hi v : ℕ) (m : List (ℕ × ℕ))
    → Between lo hi m
    → has_value v m ≡ true
    → (lo ≤ v) × (v ≤ hi) × (0 < v)
Between-value lo hi v [] b h = absurd (ground (arith, h))
Between-value lo hi v ((id, est) ∷ m) (x, b) h = elim (Bool-cases (has_value v m)) [
  | inl e ↦ Between-value lo hi v m b e
  | inr e ↦ ground (arith, h, e, x)
]

-- A new estimate lowers the lowest or raises the highest, or leaves them.
pub AreExtremes-set :
    (lo hi id est : ℕ) (m : List (ℕ × ℕ))
    → 0 < est
    → Lacks id m
    → AreExtremes lo hi m
    → AreExtremes (lower est lo) (higher est hi) (set ℕ_discrete id est m)
AreExtremes-set lo hi id est m pos l (inl (e, a, b)) =
    let hv = has_value-set est id est m l in
    let low : lower est lo ≡ est = ground (arith, a) in
    let high : higher est hi ≡ est = ground (arith, b) in
    inr (
      rw e (unfold set in ((ground (arith, a), ground (arith, b), pos), tt)),
      rw low (ground (arith, hv)),
      rw high (ground (arith, hv)),
    )
AreExtremes-set lo hi id est m pos l (inr (b, x, y)) =
    let (_, _, lo_pos) = Between-value lo hi lo m b x in
    let (lo_hi, _, _) = Between-value lo hi hi m b y in
    inr (
      All-set (λ e. (lower est lo ≤ e.1) × (e.1 ≤ higher est hi) × (0 < e.1)) id est m
          (ground arith, ground arith, pos)
          (Between-wider lo hi (lower est lo) (higher est hi) m (ground arith) (ground arith) b),
      ground (arith, has_value-set (lower est lo) id est m l, x),
      ground (arith, has_value-set (higher est hi) id est m l, y),
    )
