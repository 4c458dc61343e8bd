-- ===== src/Base/Keys.antt =====
-- Maps whose keys are numbers, with the test of a key as a Boolean.
use native.Mathlib.Decide.{ℕ_discrete}
use mathlib.Core.Path.{◌≡◌, refl, sym, ap, ◌∙◌, subst}
use mathlib.Core.Logic.{◌≢◌, if_pos, if_neg}
use mathlib.Core.Option.{Option, none, some}
use mathlib.Core.Bool.{Bool}
use mathlib.Core.List.{List, [], ◌∷◌}
use Prim.Native.Nat.{ℕ}
use native.Mathlib.Omega.{arith}
use peer_calls.Base.Tests.{◌==◌, ==_ne, ==_refl, if◌then◌else◌}
use peer_calls.Base.Lists.{length, All}
use peer_calls.Base.Dict.{
  get, set, delete, get-set_self, get-set_ne, get-delete_self, get-delete_ne,
}

abbrev pub unless {ℓ} : {A : Type ℓ} → Bool → Option A → Option A
unless b x = if b then none else x

module _ {ℓ} {V : Type ℓ} where
  pub get-delete_if :
      (k j : ℕ) (m : List (ℕ × V))
      → get ℕ_discrete j (delete ℕ_discrete k m) ≡ unless (k == j) (get ℕ_discrete j m)
  get-delete_if k j m = elim (ℕ_discrete k j) [
    | yes e ↦ rw (ap (λ i. k == i) (sym e) ∙ ==_refl k) (
        ap (λ i. get ℕ_discrete i (delete ℕ_discrete k m)) (sym e) ∙ get-delete_self ℕ_discrete k m)
    | no n ↦ rw (==_ne k j n) (get-delete_ne ℕ_discrete k j m n)
  ]

  pub get-set_if :
      (k j : ℕ) (v : V) (m : List (ℕ × V))
      → get ℕ_discrete j (set ℕ_discrete k v m) ≡ (if k == j then some v else get ℕ_discrete j m)
  get-set_if k j v m = elim (ℕ_discrete k j) [
    | yes e ↦
        rw (ap (λ i. k == i) (sym e) ∙ ==_refl k) (
          ap (λ i. get ℕ_discrete i (set ℕ_discrete k v m)) (sym e) ∙ get-set_self ℕ_discrete k v m)
    | no n ↦ rw (==_ne k j n) (get-set_ne ℕ_discrete k j v m n)
  ]

  pub get-empty : (k : ℕ) (m : List (ℕ × V)) → length m ≡ 0 → get ℕ_discrete k m ≡ none
  unfolding get
  get-empty k [] e = refl
  get-empty k (x ∷ m) e = absurd (omega (arith, e))

  -- A key that is not in the map.
  abbrev pub Lacks : ℕ → List (ℕ × V) → Type 0
  Lacks k m = All (λ e. e.0 ≢ k) m

  -- Every key is in the map once.
  abbrev pub IsMap : List (ℕ × V) → Type 0
  IsMap [] = Unit
  IsMap ((k, v) ∷ m) = Lacks k m × IsMap m

  module _ (k : ℕ) where
    pub delete-Lacks : (m : List (ℕ × V)) → Lacks k (delete ℕ_discrete k m)
    unfolding delete
    delete-Lacks [] = tt
    delete-Lacks ((j, w) ∷ m) = elim (ℕ_discrete j k) [
      | yes p ↦ rw (if_pos (ℕ_discrete j k) p) (delete-Lacks m)
      | no n ↦ rw (if_neg (ℕ_discrete j k) n) (n, delete-Lacks m)
    ]

    -- A delete of a key that is not in the map does nothing.
    pub Lacks-delete : (m : List (ℕ × V)) → Lacks k m → delete ℕ_discrete k m ≡ m
    unfolding delete
    Lacks-delete [] h = refl
    Lacks-delete ((j, w) ∷ m) (n, h) =
        rw (if_neg (ℕ_discrete j k) n) (ap (λ (r : List (ℕ × V)). (j, w) ∷ r) (Lacks-delete m h))

    Lacks-set_other :
        (j : ℕ) (v : V) (m : List (ℕ × V)) → j ≢ k → Lacks k m → Lacks k (set ℕ_discrete j v m)
    unfolding set
    Lacks-set_other j v [] n h = (n, tt)
    Lacks-set_other j v ((i, w) ∷ m) n (ni, h) = elim (ℕ_discrete i j) [
      | yes p ↦ rw (if_pos (ℕ_discrete i j) p) (n, h)
      | no q ↦ rw (if_neg (ℕ_discrete i j) q) (ni, Lacks-set_other j v m n h)
    ]

    Lacks-delete_other : (j : ℕ) (m : List (ℕ × V)) → Lacks k m → Lacks k (delete ℕ_discrete j m)
    unfolding delete
    Lacks-delete_other j [] h = tt
    Lacks-delete_other j ((i, w) ∷ m) (ni, h) = elim (ℕ_discrete i j) [
      | yes p ↦ rw (if_pos (ℕ_discrete i j) p) (Lacks-delete_other j m h)
      | no q ↦ rw (if_neg (ℕ_discrete i j) q) (ni, Lacks-delete_other j m h)
    ]

    pub Lacks-get : (m : List (ℕ × V)) → Lacks k m → get ℕ_discrete k m ≡ none
    unfolding get
    Lacks-get [] h = refl
    Lacks-get ((j, w) ∷ m) (n, h) = rw (if_neg (ℕ_discrete j k) n) (Lacks-get m h)

  pub none-Lacks : (k : ℕ) (m : List (ℕ × V)) → get ℕ_discrete k m ≡ none → Lacks k m
  unfolding get
  none-Lacks k [] e = tt
  none-Lacks k ((j, w) ∷ m) e = elim (ℕ_discrete j k) [
    | yes p ↦ cc (e, if_pos (ℕ_discrete j k) p (some w) (get ℕ_discrete k m))
    | no n ↦ (n, none-Lacks k m (sym (if_neg (ℕ_discrete j k) n _ _) ∙ e))
  ]

  pub IsMap-delete : (k : ℕ) (m : List (ℕ × V)) → IsMap m → IsMap (delete ℕ_discrete k m)
  unfolding delete
  IsMap-delete k [] h = tt
  IsMap-delete k ((j, w) ∷ m) (l, h) = elim (ℕ_discrete j k) [
    | yes p ↦ rw (if_pos (ℕ_discrete j k) p) (IsMap-delete k m h)
    | no n ↦ rw (if_neg (ℕ_discrete j k) n) (Lacks-delete_other j k m l, IsMap-delete k m h)
  ]

  pub IsMap-set : (k : ℕ) (v : V) (m : List (ℕ × V)) → IsMap m → IsMap (set ℕ_discrete k v m)
  unfolding set
  IsMap-set k v [] h = (tt, tt)
  IsMap-set k v ((j, w) ∷ m) (l, h) = elim (ℕ_discrete j k) [
    | yes p ↦ rw (if_pos (ℕ_discrete j k) p) (subst (λ i. Lacks i m) p l, h)
    | no n ↦
        rw (if_neg (ℕ_discrete j k) n)
          (Lacks-set_other j k v m (λ e. n (sym e)) l, IsMap-set k v m h)
  ]

  entries_of :
      (n m : List (ℕ × V))
      → ((k : ℕ) (v : V) → get ℕ_discrete k m ≡ some v → get ℕ_discrete k n ≡ some v)
      → IsMap m
      → All (λ e. get ℕ_discrete e.0 n ≡ some e.1) m
  unfolding get
  entries_of n [] f h = tt
  entries_of n ((j, w) ∷ m) f (l, h) = (
    f j w (rw (if_pos (ℕ_discrete j j) refl) refl),
    entries_of n m
        (λ k v e. f k v (elim (ℕ_discrete j k) [
          | yes p ↦ cc (e, ap (λ i. get ℕ_discrete i m) p, Lacks-get j m l)
          | no n ↦ rw (if_neg (ℕ_discrete j k) n) e
        ]))
        h,
  )

  -- The entries of a map are what its keys lead to.
  pub entries-get : (m : List (ℕ × V)) → IsMap m → All (λ e. get ℕ_discrete e.0 m ≡ some e.1) m
  entries-get m h = entries_of m m (λ k v e. e) h

  pub All-get :
      (P : ℕ → Type 0) (m : List (ℕ × V)) (k : ℕ) {v : V}
      → All (λ e. P e.0) m
      → get ℕ_discrete k m ≡ some v
      → P k
  unfolding get
  All-get P [] k h e = cc e
  All-get P ((j, w) ∷ m) k (h, hs) e = elim (ℕ_discrete j k) [
    | yes p ↦ subst P p h
    | no n ↦ All-get P m k hs (sym (if_neg (ℕ_discrete j k) n _ _) ∙ e)
  ]
