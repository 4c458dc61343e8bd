-- ===== src/Basen/Alphabet.antt =====
-- server/basen/basen.go: the characters of an alphabet with no repetition, and `runeToValue`.
use native.Mathlib.Decide.{ℕ_discrete}
use peer_calls.Base.{
  ℕ, zero, suc, ◌+◌, ◌<◌, ◌≡◌, ◌≢◌, refl, ap, ◌∙◌, some, List, [], ◌∷◌, length, arith, All,
}
use peer_calls.Base.Dict.{get, set, get-set_self, get-set_ne}
use peer_calls.Basen.{char_at, rune_to_value}

abbrev pub Distinct : List ℕ → Type 0
Distinct [] = Unit
Distinct (c ∷ cs) = All (λ d. d ≢ c) cs × Distinct cs

-- A character that does not come up again keeps its value.
rune_to_value-keeps :
    (i c : ℕ) (cs : List ℕ) (m : List (ℕ × ℕ))
    → All (λ d. d ≢ c) cs
    → get ℕ_discrete c (rune_to_value i cs m) ≡ get ℕ_discrete c m
unfolding rune_to_value
rune_to_value-keeps i c [] m h = refl
rune_to_value-keeps i c (d ∷ ds) m (ne, h) =
    rune_to_value-keeps (i + 1) c ds (set ℕ_discrete d i m) h ∙ get-set_ne ℕ_discrete d c i m ne

-- The value of the character at index `k` is `k`.
pub rune_to_value-char_at :
    (cs : List ℕ) (i k : ℕ) (m : List (ℕ × ℕ))
    → Distinct cs
    → k < length cs
    → get ℕ_discrete (char_at cs k) (rune_to_value i cs m) ≡ some (i + k)
unfolding rune_to_value char_at
rune_to_value-char_at [] i k m h lt = absurd (omega arith)
rune_to_value-char_at (c ∷ cs) i zero m (h, hs) lt =
    rune_to_value-keeps (i + 1) c cs (set ℕ_discrete c i m) h
    ∙ get-set_self ℕ_discrete c i m
    ∙ ap some (omega arith)
rune_to_value-char_at (c ∷ cs) i (suc k) m (h, hs) lt =
    rune_to_value-char_at cs (i + 1) k (set ℕ_discrete c i m) hs (omega arith)
    ∙ ap some (omega arith)
