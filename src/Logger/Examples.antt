-- ===== src/Logger/Examples.antt =====
-- A configuration with wildcards: `**:b` at trace, `a:*` at debug and `a:b` at error.
use native.Mathlib.Decide.{ℕ_discrete}
use peer_calls.Base.{◌≡◌, ◌≢◌, refl, some, List, [], ◌∷◌}
use peer_calls.Base.Dict.{get, list_discrete}
use peer_calls.Logger.{
  LogLevel, level_unknown, level_error, level_debug, level_trace, Name, wildcard, double_wildcard,
  new_wildcard_node, add_all, add_namespace, get_child, set_child, level_at, deeper,
  level_for_namespace,
}
use peer_calls.Logger.Explicit.{configured}
use peer_calls.Logger.Patterns.{Matches}
use peer_calls.Logger.Sound.{unnamed_level, level_of_pattern}

-- "a" and "b".
abbrev a : Name
a = 97 ∷ []

abbrev b : Name
b = 98 ∷ []

abbrev config3 : List (List Name × LogLevel)
config3 =
    (double_wildcard ∷ b ∷ [], level_trace)
    ∷ (a ∷ wildcard ∷ [], level_debug)
    ∷ (a ∷ b ∷ [], level_error)
    ∷ []

named_entry : configured (a ∷ b ∷ []) config3 level_unknown ≡ level_error
unfolding list_discrete ℕ_discrete
named_entry = refl

-- `b:b` is not named: the double wildcard is the pattern.
double_wildcard_answer :
    level_for_namespace (new_wildcard_node config3) (b ∷ b ∷ []) ≡ some level_trace
unfolding new_wildcard_node add_all add_namespace get_child set_child level_at deeper
    level_for_namespace get list_discrete ℕ_discrete
double_wildcard_answer = refl

level_of_pattern_example :
    (ps : List Name) × (configured ps config3 (unnamed_level ps) ≡ level_trace)
    × Matches ps (b ∷ b ∷ [])
    × (level_trace ≢ level_unknown)
level_of_pattern_example = level_of_pattern config3 (b ∷ b ∷ []) level_trace double_wildcard_answer
