-- ===== src/Logger/Known.antt =====
-- server/logger/wildcard_node.go: a level that is found is not `LevelUnknown`.
use mathlib.Core.Logic.{ite, if_pos, if_neg}
use mathlib.Core.Path.{subst}
use mathlib.Core.Option.{some-injective}
use peer_calls.Base.{◌≡◌, ◌≢◌, ◌∙◌, refl, sym, Option, none, some, List, [], ◌∷◌}
use peer_calls.Base.Dict.{get}
use peer_calls.Logger.{
  LogLevel, level_unknown, level_disabled, level_error, level_warn, level_info, level_debug,
  level_trace, Name, name_discrete, wildcard, double_wildcard, WildcardNode, wildcard_node,
  Children, childless, child, get_child, known, ask, deeper, level_at, level_for_namespace, lookups,
  end_level, ◌or_else◌,
}
use peer_calls.Logger.Explicit.{found, lookups-get}

abbrev IsKnown : Option LogLevel → Type 0
IsKnown o = o ≢ some level_unknown

known-IsKnown : (l : LogLevel) → IsKnown (known l)
known-IsKnown level_unknown e = cc e
known-IsKnown level_disabled e = cc e
known-IsKnown level_error e = cc e
known-IsKnown level_warn e = cc e
known-IsKnown level_info e = cc e
known-IsKnown level_debug e = cc e
known-IsKnown level_trace e = cc e

or_else-IsKnown : (x y : Option LogLevel) → IsKnown x → IsKnown y → IsKnown (x or_else y)
or_else-IsKnown none y hx hy = hy
or_else-IsKnown (some l) y hx hy = hx

abbrev AllKnown : WildcardNode → Type 0
AllKnown t = (ns : List Name) → IsKnown (level_for_namespace t ns)

module _ (k : LogLevel) (n : Name) (cs : Children)
    (ih : (s : Name) (u : WildcardNode) → get_child s cs ≡ some u → AllKnown u) where
  ask-IsKnown : (s : Name) (ns : List Name) → IsKnown (ask (get name_discrete s (lookups cs)) ns)
  ask-IsKnown s ns = rw (lookups-get s cs) (go (get_child s cs) (ih s))
    where
      go :
          (o : Option WildcardNode)
          → ((u : WildcardNode) → o ≡ some u → AllKnown u)
          → IsKnown (ask (found o) ns)
      go none h = λ e. cc e
      go (some u) h = h u refl ns

  deeper-IsKnown : (ns : List Name) → IsKnown (deeper (lookups cs) ns)
  unfolding deeper
  deeper-IsKnown [] = λ e. cc e
  deeper-IsKnown (x ∷ xs) = or_else-IsKnown _ _ (ask-IsKnown x xs) (deeper-IsKnown xs)

  double-IsKnown :
      (ns : List Name)
      → IsKnown
          (ite (name_discrete n double_wildcard) (deeper (lookups cs) ns or_else known k) none)
  double-IsKnown ns = elim (name_discrete n double_wildcard) [
    | yes p ↦
        rw (if_pos (name_discrete n double_wildcard) p)
          (or_else-IsKnown _ _ (deeper-IsKnown ns) (known-IsKnown k))
    | no q ↦ rw (if_neg (name_discrete n double_wildcard) q) (λ e. cc e)
  ]

  node-AllKnown : AllKnown (wildcard_node k n cs)
  unfolding level_for_namespace level_at
  node-AllKnown [] = known-IsKnown (end_level k (get name_discrete double_wildcard (lookups cs)))
  node-AllKnown (x ∷ xs) = or_else-IsKnown _ _ (ask-IsKnown x xs) (
      or_else-IsKnown _ _ (double-IsKnown (x ∷ xs))
        (or_else-IsKnown _ _ (ask-IsKnown wildcard xs) (ask-IsKnown double_wildcard (x ∷ xs))))

mutual
  unfolding get_child

  -- No node answers with `LevelUnknown`.
  pub every-AllKnown : (t : WildcardNode) → AllKnown t
  every-AllKnown (wildcard_node k n cs) = node-AllKnown k n cs (children-AllKnown cs)

  children-AllKnown :
      (cs : Children) (s : Name) (u : WildcardNode) → get_child s cs ≡ some u → AllKnown u
  children-AllKnown childless s u e = cc e
  children-AllKnown (child n t cs) s u e = elim (name_discrete n s) [
    | yes p ↦
        subst AllKnown (some-injective _ _ (sym (if_pos (name_discrete n s) p _ _) ∙ e))
          (every-AllKnown t)
    | no q ↦ children-AllKnown cs s u (sym (if_neg (name_discrete n s) q _ _) ∙ e)
  ]
