-- ===== src/Logger.antt =====
-- server/logger/level.go and server/logger/wildcard_node.go: the levels of the namespaces, which a
-- configuration gives by patterns. A string is the list of its bytes; a namespace is the list of its
-- sections, as `strings.Split` cuts it at the colons. A node's children are looked up by name.
pub mod Explicit
mod Examples
pub mod Patterns
pub mod Names
pub mod Known
pub mod Text
pub mod Sound
use native.Mathlib.Decide.{ℕ_discrete}
use peer_calls.Base.Dict.{list_discrete}
use mathlib.Core.Logic.{ite}
use peer_calls.Base.{ℕ, Bool, true, false, Option, none, some, List, [], ◌∷◌}
use peer_calls.Base.Dict.{get}

pub data LogLevel : Type 0 where
  level_unknown level_disabled level_error level_warn level_info level_debug level_trace : LogLevel

abbrev pub Name : Type 0
Name = List ℕ

abbrev pub name_discrete : Discrete (List ℕ)
name_discrete = list_discrete ℕ_discrete

-- "*" and "**".
abbrev pub wildcard : Name
wildcard = 42 ∷ []

abbrev pub double_wildcard : Name
double_wildcard = 42 ∷ 42 ∷ []

-- `wildcardNode`, with its level, its name and its children.
mutual
  pub data WildcardNode : Type 0 where
    wildcard_node : LogLevel → Name → Children → WildcardNode

  pub data Children : Type 0 where
    childless : Children
    child : Name → WildcardNode → Children → Children

unfoldable pub get_child : Name → Children → Option WildcardNode
get_child s childless = none
get_child s (child n t cs) = ite (name_discrete n s) (some t) (get_child s cs)

unfoldable pub set_child : Name → WildcardNode → Children → Children
set_child s t childless = child s t childless
set_child s t (child n u cs) = ite (name_discrete n s) (child s t cs) (child n u (set_child s t cs))

abbrev pub child_or_new : Name → Option WildcardNode → WildcardNode
child_or_new s none = wildcard_node level_unknown s childless
child_or_new s (some t) = t

abbrev pub level_of : WildcardNode → LogLevel
level_of (wildcard_node l n cs) = l

-- `add`. The empty namespace has no sections here: its level is the node's own.
unfoldable pub add_namespace : List Name → LogLevel → WildcardNode → WildcardNode
add_namespace [] level (wildcard_node l n cs) = wildcard_node level n cs
add_namespace (s ∷ ss) level (wildcard_node l n cs) =
    wildcard_node l n (set_child s (add_namespace ss level (child_or_new s (get_child s cs))) cs)

-- `newWildcardNode`: the root's level is the zero value of `Level`.
unfoldable pub add_all : List (List Name × LogLevel) → WildcardNode → WildcardNode
add_all [] t = t
add_all ((ns, level) ∷ config) t = add_all config (add_namespace ns level t)

unfoldable pub new_wildcard_node : List (List Name × LogLevel) → WildcardNode
new_wildcard_node config = add_all config (wildcard_node level_disabled [] childless)

-- A level and `level != LevelUnknown`.
abbrev pub known : LogLevel → Option LogLevel
known level_unknown = none
known level_disabled = some level_disabled
known level_error = some level_error
known level_warn = some level_warn
known level_info = some level_info
known level_debug = some level_debug
known level_trace = some level_trace

infixr 20 ◌or_else◌
abbrev pub ◌or_else◌ : {A : Type 0} → Option A → Option A → Option A
none or_else y = y
some x or_else y = some x

-- The children by name, each with its level and its `levelForNamespace`.
abbrev pub Found : Type 0
Found = LogLevel × (List Name → Option LogLevel)

abbrev pub Lookup : Type 0
Lookup = List (Name × Found)

abbrev pub ask : Option Found → List Name → Option LogLevel
ask none names = none
ask (some (l, f)) names = f names

-- The loop below a double wildcard.
unfoldable pub deeper : Lookup → List Name → Option LogLevel
deeper m [] = none
deeper m (x ∷ xs) = ask (get name_discrete x m) xs or_else deeper m xs

-- The level at the end of a namespace.
abbrev pub end_level : LogLevel → Option Found → LogLevel
end_level level_unknown (some (l, f)) = l
end_level l o = l

-- `levelForNamespace` of a node, given that of its children.
unfoldable pub level_at : LogLevel → Name → Lookup → List Name → Option LogLevel
level_at l n m [] = known (end_level l (get name_discrete double_wildcard m))
level_at l n m (x ∷ xs) =
    ask (get name_discrete x m) xs
    or_else ite (name_discrete n double_wildcard) (deeper m (x ∷ xs) or_else known l) none
    or_else ask (get name_discrete wildcard m) xs
    or_else ask (get name_discrete double_wildcard m) (x ∷ xs)

unfoldable mutual
  unfolding level_at

  pub level_for_namespace : WildcardNode → List Name → Option LogLevel
  level_for_namespace (wildcard_node l n cs) names = level_at l n (lookups cs) names

  pub lookups : Children → Lookup
  lookups childless = []
  lookups (child s t cs) = (s, (level_of t, level_for_namespace t)) ∷ lookups cs

abbrev pub or_own : LogLevel → Option LogLevel → LogLevel
or_own l none = l
or_own l (some l') = l'

-- `LevelForNamespace`
unfoldable pub level_for : WildcardNode → List Name → LogLevel
level_for t [] = level_of t
level_for t (x ∷ xs) = or_own (level_of t) (level_for_namespace t (x ∷ xs))
