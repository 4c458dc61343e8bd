-- ===== src/Base/Entries.antt =====
-- What holds of every entry of a map, through its operations.
use mathlib.Core.Path.{◌≡◌, refl, sym, ap, ◌∙◌, subst}
use mathlib.Core.Logic.{◌≢◌, if_pos, if_neg}
use mathlib.Core.Option.{none, some}
use mathlib.Core.List.{List, [], ◌∷◌}
use peer_calls.Base.Lists.{All}
use peer_calls.Base.Dict.{get, set, delete}

module _ {ℓ κ μ} {K : Type ℓ} {V : Type κ} (dec : Discrete K) (P : K × V → Type μ) where
  pub get-All : (k : K) (m : List (K × V)) {v : V} → All P m → get dec k m ≡ some v → P (k, v)
  unfolding get
  get-All k [] h e = cc e
  get-All k ((j, w) ∷ m) {v} (h, hs) e = elim (dec j k) [
    | yes p ↦
        let same : some w ≡ some v = sym (if_pos (dec j k) p (some w) (get dec k m)) ∙ e in
        subst (λ i. P (i, v)) p (subst (λ u. P (j, u)) (cc same) h)
    | no n ↦ get-All k m hs (sym (if_neg (dec j k) n _ _) ∙ e)
  ]

  pub set-All : (k : K) (v : V) (m : List (K × V)) → All P m → P (k, v) → All P (set dec k v m)
  unfolding set
  set-All k v [] h p = (p, tt)
  set-All k v ((j, w) ∷ m) (h, hs) p = elim (dec j k) [
    | yes e ↦ rw (if_pos (dec j k) e) (p, hs)
    | no n ↦ rw (if_neg (dec j k) n) (h, set-All k v m hs p)
  ]

  pub delete-All : (k : K) (m : List (K × V)) → All P m → All P (delete dec k m)
  unfolding delete
  delete-All k [] h = tt
  delete-All k ((j, w) ∷ m) (h, hs) = elim (dec j k) [
    | yes e ↦ rw (if_pos (dec j k) e) (delete-All k m hs)
    | no n ↦ rw (if_neg (dec j k) n) (h, delete-All k m hs)
  ]

module _ {ℓ κ} {K : Type ℓ} {V : Type κ} where
  -- Every key is in the map once.
  abbrev pub IsMap : List (K × V) → Type ℓ
  IsMap [] = Unit
  IsMap (e ∷ m) = All (λ f. f.0 ≢ e.0) m × IsMap m

  module _ (dec : Discrete K) where
    -- A delete of a key that is not in the map does nothing.
    pub delete-Lacks : (k : K) (m : List (K × V)) → All (λ f. f.0 ≢ k) m → delete dec k m ≡ m
    unfolding delete
    delete-Lacks k [] h = refl
    delete-Lacks k ((j, w) ∷ m) (n, h) =
        rw (if_neg (dec j k) n) (ap (λ (r : List (K × V)). (j, w) ∷ r) (delete-Lacks k m h))

    pub IsMap-delete : (k : K) (m : List (K × V)) → IsMap m → IsMap (delete dec k m)
    unfolding delete
    IsMap-delete k [] h = tt
    IsMap-delete k ((j, w) ∷ m) (l, h) = elim (dec j k) [
      | yes p ↦ rw (if_pos (dec j k) p) (IsMap-delete k m h)
      | no n ↦ rw (if_neg (dec j k) n) (delete-All dec (λ f. f.0 ≢ j) k m l, IsMap-delete k m h)
    ]

    pub IsMap-set : (k : K) (v : V) (m : List (K × V)) → IsMap m → IsMap (set dec k v m)
    unfolding set
    IsMap-set k v [] h = (tt, tt)
    IsMap-set k v ((j, w) ∷ m) (l, h) = elim (dec j k) [
      | yes p ↦ rw (if_pos (dec j k) p) (subst (λ i. All (λ f. f.0 ≢ i) m) p l, h)
      | no n ↦
          rw (if_neg (dec j k) n)
            (set-All dec (λ f. f.0 ≢ j) k v m l (λ e. n (sym e)), IsMap-set k v m h)
    ]

    Lacks-get : (k : K) (m : List (K × V)) → All (λ f. f.0 ≢ k) m → get dec k m ≡ none
    unfolding get
    Lacks-get k [] h = refl
    Lacks-get k ((j, w) ∷ m) (n, h) = rw (if_neg (dec j k) n) (Lacks-get k m h)

    entries_of :
        (n m : List (K × V))
        → ((k : K) (v : V) → get dec k m ≡ some v → get dec k n ≡ some v)
        → IsMap m
        → All (λ e. get dec e.0 n ≡ some e.1) m
    unfolding get
    entries_of n [] f h = tt
    entries_of n ((j, w) ∷ m) f (l, h) = (
      f j w (rw (if_pos (dec j j) refl) refl),
      entries_of n m
          (λ k v e. f k v (elim (dec j k) [
            | yes p ↦ cc (e, ap (λ i. get dec i m) p, Lacks-get j m l)
            | no q ↦ rw (if_neg (dec j k) q) e
          ]))
          h,
    )

    -- The entries of a map are what its keys lead to.
    pub entries-get : (m : List (K × V)) → IsMap m → All (λ e. get dec e.0 m ≡ some e.1) m
    entries-get m h = entries_of m m (λ k v e. e) h
