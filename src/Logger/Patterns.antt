-- ===== src/Logger/Patterns.antt =====
-- server/logger/wildcard_node.go: the patterns of a configuration, and the namespaces that match them.
use mathlib.Core.Path.{subst}
use peer_calls.Base.{◌≡◌, ◌⊎◌, sym, List, [], ◌∷◌, inl, inr}
use peer_calls.Logger.{
  LogLevel, Name, wildcard, double_wildcard, WildcardNode, wildcard_node, Children, childless,
  child,
}
use peer_calls.Logger.Explicit.{path_level}

-- A pattern matches a namespace: "*" one section, "**" any number of them.
pub data Matches : List Name → List Name → Type 0 where
  all_matched : Matches [] []
  same_section : (s : Name) {ps ns : List Name} → Matches ps ns → Matches (s ∷ ps) (s ∷ ns)
  one_section : (n : Name) {ps ns : List Name} → Matches ps ns → Matches (wildcard ∷ ps) (n ∷ ns)
  no_section : {ps ns : List Name} → Matches ps ns → Matches (double_wildcard ∷ ps) ns
  more_sections :
      (n : Name) {ps ns : List Name}
      → Matches (double_wildcard ∷ ps) ns
      → Matches (double_wildcard ∷ ps) (n ∷ ns)

-- The rest of a pattern below a node matches, or the node is a double wildcard that goes on.
abbrev pub MatchesBelow : Name → List Name → List Name → Type 0
MatchesBelow s ps ns = Matches ps ns ⊎ ((s ≡ double_wildcard) × Matches (double_wildcard ∷ ps) ns)

-- Each child has the name under which its parent keeps it.
unfoldable mutual
  pub Named : Name → WildcardNode → Type 0
  Named s (wildcard_node l n cs) = (n ≡ s) × AllNamed cs

  pub AllNamed : Children → Type 0
  AllNamed childless = Unit
  AllNamed (child s t cs) = Named s t × AllNamed cs

-- A level for a namespace comes from a pattern below a node.
abbrev pub Comes : WildcardNode → Name → List Name → LogLevel → Type 0
Comes t s ns l = (ps : List Name) × (path_level ps t ≡ l) × MatchesBelow s ps ns

-- Where a child is asked, the pattern goes through it.
pub literal : (s : Name) {ps ns : List Name} → MatchesBelow s ps ns → Matches (s ∷ ps) (s ∷ ns)
literal s (inl m) = same_section s m
literal s {ps} {ns} (inr (e, m)) =
    subst (λ i. Matches (i ∷ ps) (s ∷ ns)) (sym e) (more_sections s m)

pub any_sections : (ns : List Name) → Matches (double_wildcard ∷ []) ns
any_sections [] = no_section all_matched
any_sections (n ∷ ns) = more_sections n (any_sections ns)

pub through_wildcard :
    (n : Name) {ps ns : List Name} → MatchesBelow wildcard ps ns → Matches (wildcard ∷ ps) (n ∷ ns)
through_wildcard n (inl m) = one_section n m
through_wildcard n (inr (e, m)) = cc e

pub through_double :
    {ps ns : List Name} → MatchesBelow double_wildcard ps ns → Matches (double_wildcard ∷ ps) ns
through_double (inl m) = no_section m
through_double (inr (e, m)) = m
