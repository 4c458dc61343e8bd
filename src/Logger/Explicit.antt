-- ===== src/Logger/Explicit.antt =====
-- server/logger/wildcard_node.go: namespaces that the configuration names.
use peer_calls.Base.Dict.{list_discrete}
use mathlib.Core.Logic.{ite, if_pos, if_neg}
use peer_calls.Base.{◌≡◌, ◌≢◌, ◌∙◌, refl, sym, ap, Option, none, some, List, [], ◌∷◌}
use peer_calls.Base.Dict.{get}
use peer_calls.Logger.{
  LogLevel, level_unknown, level_disabled, level_error, level_warn, level_info, level_debug,
  level_trace, Name, name_discrete, WildcardNode, wildcard_node, Children, childless, child,
  get_child, set_child, child_or_new, level_of, add_namespace, add_all, new_wildcard_node, known,
  Found, ask, level_at, level_for_namespace, lookups, level_for, or_own, end_level, ◌or_else◌,
}

abbrev pub found : Option WildcardNode → Option Found
found none = none
found (some t) = some (level_of t, level_for_namespace t)

-- The children of the lookup are those of the node.
pub lookups-get :
    (s : Name) (cs : Children) → get name_discrete s (lookups cs) ≡ found (get_child s cs)
unfolding get_child lookups get
lookups-get s childless = refl
lookups-get s (child n u cs) = elim (name_discrete n s) [
  | yes p ↦ rw (if_pos (name_discrete n s) p) (rw (if_pos (name_discrete n s) p) refl)
  | no q ↦ rw (if_neg (name_discrete n s) q) (rw (if_neg (name_discrete n s) q) (lookups-get s cs))
]

get_child-set_self :
    (s : Name) (t : WildcardNode) (cs : Children) → get_child s (set_child s t cs) ≡ some t
unfolding get_child set_child
get_child-set_self s t childless = rw (if_pos (name_discrete s s) refl) refl
get_child-set_self s t (child n u cs) = elim (name_discrete n s) [
  | yes p ↦ rw (if_pos (name_discrete n s) p) (rw (if_pos (name_discrete s s) refl) refl)
  | no q ↦
      rw (if_neg (name_discrete n s) q)
        (rw (if_neg (name_discrete n s) q) (get_child-set_self s t cs))
]

get_child-set_ne :
    (s r : Name) (t : WildcardNode) (cs : Children)
    → s ≢ r
    → get_child r (set_child s t cs) ≡ get_child r cs
unfolding get_child set_child
get_child-set_ne s r t childless h = rw (if_neg (name_discrete s r) h) refl
get_child-set_ne s r t (child n u cs) h = elim (name_discrete n s) [
  | yes p ↦ rw (if_pos (name_discrete n s) p) (
      rw (if_neg (name_discrete s r) h) (rw (if_neg (name_discrete n r) (λ e. h (sym p ∙ e))) refl))
  | no q ↦
      rw (if_neg (name_discrete n s) q)
        (ap (ite (name_discrete n r) (some u)) (get_child-set_ne s r t cs h))
]

-- The level at the end of a path, unknown where there is no such path.
unfoldable pub path_level : List Name → WildcardNode → LogLevel
path_level [] (wildcard_node l n cs) = l
path_level (s ∷ ss) (wildcard_node l n cs) = elim (get_child s cs) [
  | none ↦ level_unknown
  | some t ↦ path_level ss t
]

abbrev pub child_level : List Name → Option WildcardNode → LogLevel
child_level ss none = level_unknown
child_level ss (some t) = path_level ss t

pub path_level-child :
    (s : Name) (ss : List Name) (k : LogLevel) (n : Name) (cs : Children)
    → path_level (s ∷ ss) (wildcard_node k n cs) ≡ child_level ss (get_child s cs)
unfolding path_level
path_level-child s ss k n cs = refl

known-end : (l : LogLevel) (o : Option Found) → l ≢ level_unknown → known (end_level l o) ≡ some l
known-end level_unknown o h = absurd (h refl)
known-end level_disabled o h = refl
known-end level_error o h = refl
known-end level_warn o h = refl
known-end level_info o h = refl
known-end level_debug o h = refl
known-end level_trace o h = refl

-- A path whose level is known decides, whatever wildcards there are.
path-level_for_namespace :
    (names : List Name) (t : WildcardNode)
    → path_level names t ≢ level_unknown
    → level_for_namespace t names ≡ some (path_level names t)
unfolding path_level level_for_namespace level_at
path-level_for_namespace [] (wildcard_node k n cs) h = known-end k _ h
path-level_for_namespace (s ∷ ss) (wildcard_node k n cs) h =
    rw (lookups-get s cs) (go _ (get_child s cs) (λ t. path-level_for_namespace ss t) (λ e. h e))
  where
    go :
        (rest : Option LogLevel) (o : Option WildcardNode)
        → ((t : WildcardNode)
            → path_level ss t ≢ level_unknown
            → level_for_namespace t ss ≡ some (path_level ss t))
        → child_level ss o ≢ level_unknown
        → (ask (found o) ss or_else rest) ≡ some (child_level ss o)
    go rest none ih h = absurd (h refl)
    go rest (some t) ih h = rw (ih t h) refl

path-add_self :
    (names : List Name) (l : LogLevel) (t : WildcardNode)
    → path_level names (add_namespace names l t) ≡ l
unfolding add_namespace
path-add_self [] l (wildcard_node k n cs) = unfold path_level in refl
path-add_self (s ∷ ss) l (wildcard_node k n cs) =
    let new = add_namespace ss l (child_or_new s (get_child s cs)) in
    path_level-child s ss k n (set_child s new cs)
    ∙ ap (child_level ss) (get_child-set_self s new cs)
    ∙ path-add_self ss l (child_or_new s (get_child s cs))

path_child :
    (s : Name) (ss : List Name) (o : Option WildcardNode)
    → path_level ss (child_or_new s o) ≡ child_level ss o
unfolding path_level get_child
path_child s [] none = refl
path_child s (x ∷ xs) none = refl
path_child s ss (some t) = refl

path-add_other :
    (names others : List Name) (l : LogLevel) (t : WildcardNode)
    → names ≢ others
    → path_level others (add_namespace names l t) ≡ path_level others t
unfolding add_namespace
path-add_other [] [] l t h = absurd (h refl)
path-add_other [] (x ∷ xs) l (wildcard_node k n cs) h = unfold path_level in refl
path-add_other (s ∷ ss) [] l (wildcard_node k n cs) h = unfold path_level in refl
path-add_other (s ∷ ss) (x ∷ xs) l (wildcard_node k n cs) h =
    let new = add_namespace ss l (child_or_new s (get_child s cs)) in
    path_level-child x xs k n (set_child s new cs)
    ∙ elim (name_discrete s x) [
      | yes p ↦
          ap (λ i. child_level xs (get_child i (set_child s new cs))) (sym p)
          ∙ ap (child_level xs) (get_child-set_self s new cs)
          ∙ path-add_other ss xs l (child_or_new s (get_child s cs))
              (λ e. h (ap (λ i. s ∷ i) e ∙ ap (λ i. i ∷ xs) p))
          ∙ path_child s xs (get_child s cs)
          ∙ ap (λ i. child_level xs (get_child i cs)) p
      | no q ↦ ap (child_level xs) (get_child-set_ne s x new cs q)
    ]
    ∙ sym (path_level-child x xs k n cs)

-- The level of a namespace in a configuration, `rest` where it is not named; of two entries of the
-- same namespace the later one counts.
abbrev pub configured : List Name → List (List Name × LogLevel) → LogLevel → LogLevel
configured names [] rest = rest
configured names ((ns, l) ∷ config) rest =
    configured names config (ite (list_discrete name_discrete ns names) l rest)

pub path-add_all :
    (names : List Name) (config : List (List Name × LogLevel)) (t : WildcardNode)
    → path_level names (add_all config t) ≡ configured names config (path_level names t)
unfolding add_all
path-add_all names [] t = refl
path-add_all names ((ns, l) ∷ config) t =
    path-add_all names config (add_namespace ns l t)
    ∙ ap (configured names config) (elim (list_discrete name_discrete ns names) [
      | yes p ↦
          rw (if_pos (list_discrete name_discrete ns names) p)
            (ap (λ i. path_level i (add_namespace ns l t)) (sym p) ∙ path-add_self ns l t)
      | no q ↦ rw (if_neg (list_discrete name_discrete ns names) q) (path-add_other ns names l t q)
    ])

-- A namespace that a configuration names with a level other than `LevelUnknown` has this level,
-- whatever other namespaces and wildcards the configuration has, and in whatever order they come;
-- of two entries of the same namespace the later one counts.
pub named_level :
    (x : Name) (xs : List Name) (config : List (List Name × LogLevel))
    → configured (x ∷ xs) config level_unknown ≢ level_unknown
    → level_for (new_wildcard_node config) (x ∷ xs) ≡ configured (x ∷ xs) config level_unknown
unfolding level_for new_wildcard_node
named_level x xs config h =
    let root = wildcard_node level_disabled [] childless in
    let t = add_all config root in
    let fresh : path_level (x ∷ xs) root ≡ level_unknown = unfold path_level get_child in refl in
    let p = path-add_all (x ∷ xs) config root ∙ ap (configured (x ∷ xs) config) fresh in
    ap (or_own (level_of t)) (path-level_for_namespace (x ∷ xs) t (λ e. h (sym p ∙ e))) ∙ p
