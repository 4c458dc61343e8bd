-- ===== src/Logger/Sound.antt =====
-- server/logger/wildcard_node.go: where the level of a namespace comes from.
use mathlib.Core.Logic.{ite, if_pos, if_neg}
use mathlib.Core.Path.{subst}
use mathlib.Core.Option.{some-injective}
use peer_calls.Base.{◌≡◌, ◌≢◌, ◌⊎◌, ◌∙◌, refl, sym, ap, Option, none, some, List, [], ◌∷◌, inl, inr}
use peer_calls.Base.Dict.{get}
use peer_calls.Logger.{
  LogLevel, level_unknown, level_disabled, level_error, level_warn, level_info, level_debug,
  level_trace, Name, name_discrete, wildcard, double_wildcard, WildcardNode, wildcard_node,
  Children, childless, child, get_child, level_of, add_all, new_wildcard_node, known, Found, ask,
  deeper, level_at, level_for_namespace, lookups, end_level, ◌or_else◌,
}
use peer_calls.Logger.Explicit.{
  configured, path-add_all, found, lookups-get, path_level, child_level, path_level-child,
}
use peer_calls.Logger.Patterns.{
  Matches, all_matched, no_section, more_sections, MatchesBelow, Named, AllNamed, Comes, literal,
  any_sections, through_wildcard, through_double,
}
use peer_calls.Logger.Known.{every-AllKnown}
use peer_calls.Logger.Names.{add_all-Named}

-- Every level that a node gives comes from a pattern below it.
abbrev IsSound : Name → WildcardNode → Type 0
IsSound s t = (ns : List Name) (l : LogLevel) → level_for_namespace t ns ≡ some l → Comes t s ns l

or_else-cases :
    {A : Type 0} (x y : Option A) (a : A) → (x or_else y) ≡ some a → (x ≡ some a) ⊎ (y ≡ some a)
or_else-cases none y a e = inr e
or_else-cases (some b) y a e = inl e

known-some : (l k : LogLevel) → known l ≡ some k → l ≡ k
known-some level_unknown k e = cc e
known-some level_disabled k e = cc e
known-some level_error k e = cc e
known-some level_warn k e = cc e
known-some level_info k e = cc e
known-some level_debug k e = cc e
known-some level_trace k e = cc e

end_cases :
    (k : LogLevel) (o : Option Found) (l : LogLevel)
    → known (end_level k o) ≡ some l
    → (k ≡ l)
      ⊎ ((l' : LogLevel) × (f : List Name → Option LogLevel) × (o ≡ some (l', f)) × (l' ≡ l))
end_cases level_unknown none l e = cc e
end_cases level_unknown (some (l', f)) l e = inr (l', f, refl, known-some l' l e)
end_cases level_disabled o l e = inl (known-some level_disabled l e)
end_cases level_error o l e = inl (known-some level_error l e)
end_cases level_warn o l e = inl (known-some level_warn l e)
end_cases level_info o l e = inl (known-some level_info l e)
end_cases level_debug o l e = inl (known-some level_debug l e)
end_cases level_trace o l e = inl (known-some level_trace l e)

found_child :
    (o : Option WildcardNode) (x : Found)
    → found o ≡ some x
    → (u : WildcardNode) × (o ≡ some u) × (level_of u ≡ x.0)
found_child none x e = cc e
found_child (some u) x e = (u, refl, ap (λ (x : Found). x.0) (some-injective _ _ e))

own_level : (u : WildcardNode) → path_level [] u ≡ level_of u
unfolding path_level
own_level (wildcard_node l n cs) = refl

module _ (k : LogLevel) (n : Name) (cs : Children)
    (ih : (s : Name) (u : WildcardNode) → get_child s cs ≡ some u → IsSound s u) where
  -- A child's answer comes from a pattern that goes through the child.
  ask_child :
      (s : Name) (ns : List Name) (l : LogLevel)
      → ask (get name_discrete s (lookups cs)) ns ≡ some l
      → (ps : List Name) × (path_level (s ∷ ps) (wildcard_node k n cs) ≡ l) × MatchesBelow s ps ns
  ask_child s ns l e = go (get_child s cs) refl (ap (λ o. ask o ns) (sym (lookups-get s cs)) ∙ e)
    where
      go :
          (o : Option WildcardNode)
          → get_child s cs ≡ o
          → ask (found o) ns ≡ some l
          → (ps : List Name) × (path_level (s ∷ ps) (wildcard_node k n cs) ≡ l)
            × MatchesBelow s ps ns
      go none i e = cc e
      go (some u) i e =
          let (ps, p, m) = ih s u i ns l e in
          (ps, path_level-child s ps k n cs ∙ ap (child_level ps) i ∙ p, m)

  deeper_child :
      (ns : List Name) (l : LogLevel)
      → deeper (lookups cs) ns ≡ some l
      → (ps : List Name) × (path_level ps (wildcard_node k n cs) ≡ l)
        × Matches (double_wildcard ∷ ps) ns
  unfolding deeper
  deeper_child [] l e = cc e
  deeper_child (x ∷ xs) l e = elim (or_else-cases _ _ l e) [
    | inl here ↦ let (ps, p, m) = ask_child x xs l here in (x ∷ ps, p, no_section (literal x m))
    | inr there ↦ let (ps, p, m) = deeper_child xs l there in (ps, p, more_sections x m)
  ]

  at_end :
      (s : Name) (l : LogLevel)
      → known (end_level k (get name_discrete double_wildcard (lookups cs))) ≡ some l
      → Comes (wildcard_node k n cs) s [] l
  unfolding path_level
  at_end s l e = elim (end_cases k _ l e) [
    | inl same ↦ ([], same, inl all_matched)
    | inr (found_l, f, i, j) ↦
        let (u, c, v) =
          found_child (get_child double_wildcard cs) (found_l, f)
            (sym (lookups-get double_wildcard cs) ∙ i) in
        (
          double_wildcard ∷ [],
          path_level-child double_wildcard [] k n cs ∙ ap (child_level []) c ∙ own_level u ∙ v ∙ j,
          inl (no_section all_matched),
        )
  ]

  node-IsSound : (s : Name) → n ≡ s → IsSound s (wildcard_node k n cs)
  unfolding level_for_namespace level_at
  node-IsSound s i [] l e = at_end s l e
  node-IsSound s i (x ∷ xs) l e = elim (or_else-cases _ _ l e) [
    | inl here ↦ let (ps, p, m) = ask_child x xs l here in (x ∷ ps, p, inl (literal x m))
    | inr e1 ↦
        elim (or_else-cases
          (ite (name_discrete n double_wildcard) (deeper (lookups cs) (x ∷ xs) or_else known k)
            none)
          _ l e1) [
            | inl below ↦ elim (name_discrete n double_wildcard) [
              | yes p ↦
                  elim (or_else-cases _ _ l
                    (sym (if_pos (name_discrete n double_wildcard) p _ _) ∙ below)) [
                      | inl deep ↦
                          let (ps, q, m) = deeper_child (x ∷ xs) l deep in
                          (ps, q, inr (sym i ∙ p, m))
                      | inr own ↦ (
                        [],
                        own_level (wildcard_node k n cs) ∙ known-some k l own,
                        inr (sym i ∙ p, any_sections (x ∷ xs)),
                      )
                    ]
              | no q ↦ cc (
                below,
                if_neg (name_discrete n double_wildcard) q
                    (deeper (lookups cs) (x ∷ xs) or_else known k) none,
              )
            ]
            | inr e2 ↦ elim (or_else-cases _ _ l e2) [
              | inl one ↦
                  let (ps, p, m) = ask_child wildcard xs l one in
                  (wildcard ∷ ps, p, inl (through_wildcard x m))
              | inr any ↦
                  let (ps, p, m) = ask_child double_wildcard (x ∷ xs) l any in
                  (double_wildcard ∷ ps, p, inl (through_double m))
            ]
          ]
  ]

mutual
  unfolding Named get_child

  Named-IsSound : (s : Name) (t : WildcardNode) → Named s t → IsSound s t
  Named-IsSound s (wildcard_node k n cs) (i, h) = node-IsSound k n cs (children-IsSound cs h) s i

  children-IsSound :
      (cs : Children)
      → AllNamed cs
      → (s : Name) (u : WildcardNode) → get_child s cs ≡ some u
      → IsSound s u
  children-IsSound childless h s u e = cc e
  children-IsSound (child n t cs) (h, hs) s u e = elim (name_discrete n s) [
    | yes p ↦
        let same = some-injective _ _ (sym (if_pos (name_discrete n s) p _ _) ∙ e) in
        subst (IsSound s) same (subst (λ i. IsSound i t) p (Named-IsSound n t h))
    | no q ↦ children-IsSound cs hs s u (sym (if_neg (name_discrete n s) q _ _) ∙ e)
  ]

-- The level of a pattern that a configuration does not name: the empty pattern, that of the root, has
-- `LevelDisabled`, each other one `LevelUnknown`.
abbrev pub unnamed_level : List Name → LogLevel
unnamed_level [] = level_disabled
unnamed_level (s ∷ ss) = level_unknown

unnamed-path :
    (ps : List Name) → path_level ps (wildcard_node level_disabled [] childless) ≡ unnamed_level ps
unfolding path_level get_child
unnamed-path [] = refl
unnamed-path (s ∷ ss) = refl

-- A level that a configuration gives for a namespace is never `LevelUnknown`, and is the level that the configuration's list
-- itself has for a pattern, of two entries of the same pattern the later one's, and this pattern
-- matches the namespace: "*" stands for one section, "**" for any number. A pattern without an entry
-- has `LevelUnknown`, but for the empty one, which is disabled.
pub level_of_pattern :
    (config : List (List Name × LogLevel)) (ns : List Name) (l : LogLevel)
    → level_for_namespace (new_wildcard_node config) ns ≡ some l
    → (ps : List Name) × (configured ps config (unnamed_level ps) ≡ l)
      × Matches ps ns
      × (l ≢ level_unknown)
unfolding new_wildcard_node
level_of_pattern config ns l e =
    let root = wildcard_node level_disabled [] childless in
    let t = add_all config root in
    let (ps, p, m) =
      Named-IsSound [] t (add_all-Named config _ (unfold Named in (refl, tt))) ns l e in
    let named = path-add_all ps config root ∙ ap (configured ps config) (unnamed-path ps) in
    (
      ps,
      sym named ∙ p,
      elim m [ inl m ↦ m | inr (i, m) ↦ cc i ],
      λ q. every-AllKnown t ns (e ∙ ap some q),
    )
