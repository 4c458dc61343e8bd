-- ===== src/Codecs/Fold.antt =====
-- server/codecs: what comparing texts without their case, and a prefix, mean.
use peer_calls.Base.{◌≡◌, ◌↔◌, refl, arith, true, [], ◌∷◌, ◌++◌, ◌==◌, Bool-cases, inl, inr}
use peer_calls.Codecs.Fmtp.{Text, to_lower, equal_fold}
use peer_calls.Codecs.{has_prefix}

-- Two texts fold to the same exactly when they are the same in lower case.
pub equal_fold_iff : (s t : Text) → (equal_fold s t ≡ true) ↔ (to_lower s ≡ to_lower t)
unfolding equal_fold to_lower
equal_fold_iff [] [] = ((λ h. refl), (λ h. refl))
equal_fold_iff [] (d ∷ t) = ((λ h. cc h), (λ h. cc h))
equal_fold_iff (c ∷ s) [] = ((λ h. cc h), (λ h. cc h))
equal_fold_iff (c ∷ s) (d ∷ t) = (
  (λ h. ground (arith, h, (equal_fold_iff s t).0)),
  (λ h. ground (arith, h, (equal_fold_iff s t).1)),
)

-- The texts that begin with a prefix.
pub has_prefix_iff : (s p : Text) → (has_prefix s p ≡ true) ↔ ((rest : Text) × (s ≡ p ++ rest))
unfolding has_prefix
has_prefix_iff s [] = ((λ h. (s, refl)), (λ h. refl))
has_prefix_iff [] (d ∷ p) = ((λ h. cc h), (λ (rest, e). cc e))
has_prefix_iff (c ∷ s) (d ∷ p) = elim (Bool-cases (c == d)) [
  | inl same ↦ rw same (
    (λ h. let (rest, e) = (has_prefix_iff s p).0 h in (rest, ground (arith, same, e))),
    (λ (rest, e). (has_prefix_iff s p).1 (rest, cc e)),
  )
  | inr other ↦ rw other ((λ h. cc h), (λ (rest, e). ground (arith, other, e)))
]
