-- ===== src/Base/Dict.antt =====
-- Go's maps as association lists. A key is given the decision of equality of its type; a write
-- to a present key replaces its value, and a delete removes every entry of the key.
use mathlib.Core.Path.{◌≡◌, refl, ap, sym, ◌∙◌}
use mathlib.Core.Logic.{◌≢◌, ite, if_pos, if_neg}
use mathlib.Core.Option.{Option, none, some}
use mathlib.Core.List.{List, [], ◌∷◌, cons≢nil, head-eq_of_cons-eq, tail-eq_of_cons-eq}

module _ {ℓ κ} {K : Type ℓ} {V : Type κ} (dec : Discrete K) where
  unfoldable pub get : K → List (K × V) → Option V
  get k [] = none
  get k ((j, v) ∷ m) = ite (dec j k) (some v) (get k m)

  unfoldable pub set : K → V → List (K × V) → List (K × V)
  set k v [] = (k, v) ∷ []
  set k v ((j, w) ∷ m) = ite (dec j k) ((k, v) ∷ m) ((j, w) ∷ set k v m)

  unfoldable pub delete : K → List (K × V) → List (K × V)
  delete k [] = []
  delete k ((j, w) ∷ m) = ite (dec j k) (delete k m) ((j, w) ∷ delete k m)

  pub get-set_self : (k : K) (v : V) (m : List (K × V)) → get k (set k v m) ≡ some v
  unfolding get set
  get-set_self k v [] = rw (if_pos (dec k k) refl)
  get-set_self k v ((j, w) ∷ m) = elim (dec j k) [
    | yes p ↦ rw (if_pos (dec j k) p) (rw (if_pos (dec k k) refl))
    | no n ↦ rw (if_neg (dec j k) n) (rw (if_neg (dec j k) n) (get-set_self k v m))
  ]

  pub get-set_ne : (k j : K) (v : V) (m : List (K × V)) → k ≢ j → get j (set k v m) ≡ get j m
  unfolding get set
  get-set_ne k j v [] h = rw (if_neg (dec k j) h)
  get-set_ne k j v ((i, w) ∷ m) h = elim (dec i k) [
    | yes p ↦
        rw (if_pos (dec i k) p)
          (rw (if_neg (dec k j) h) (rw (if_neg (dec i j) (λ e. h (sym p ∙ e)))))
    | no n ↦ rw (if_neg (dec i k) n) (ap (ite (dec i j) (some w)) (get-set_ne k j v m h))
  ]

  pub get-delete_self : (k : K) (m : List (K × V)) → get k (delete k m) ≡ none
  unfolding get delete
  get-delete_self k [] = refl
  get-delete_self k ((j, w) ∷ m) = elim (dec j k) [
    | yes p ↦ rw (if_pos (dec j k) p) (get-delete_self k m)
    | no n ↦ rw (if_neg (dec j k) n) (rw (if_neg (dec j k) n) (get-delete_self k m))
  ]

  pub get-delete_ne : (k j : K) (m : List (K × V)) → k ≢ j → get j (delete k m) ≡ get j m
  unfolding get delete
  get-delete_ne k j [] h = refl
  get-delete_ne k j ((i, w) ∷ m) h = elim (dec i k) [
    | yes p ↦
        rw (if_pos (dec i k) p) (rw (if_neg (dec i j) (λ e. h (sym p ∙ e))) (get-delete_ne k j m h))
    | no n ↦ rw (if_neg (dec i k) n) (ap (ite (dec i j) (some w)) (get-delete_ne k j m h))
  ]

-- The decision of equality of lists, which computes.
unfoldable pub list_discrete {ℓ} : {A : Type ℓ} → Discrete A → Discrete (List A)
list_discrete d [] [] = yes refl
list_discrete d [] (y ∷ ys) = no (λ e. cons≢nil (sym e))
list_discrete d (x ∷ xs) [] = no (λ e. cons≢nil e)
list_discrete d (x ∷ xs) (y ∷ ys) = elim (d x y) [
  | no n ↦ no (λ e. n (head-eq_of_cons-eq e))
  | yes p ↦ elim (list_discrete d xs ys) [
    | no n ↦ no (λ e. n (tail-eq_of_cons-eq e))
    | yes q ↦ yes (ap (λ i. i ∷ xs) p ∙ ap (λ r. y ∷ r) q)
  ]
]
