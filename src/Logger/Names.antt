-- ===== src/Logger/Names.antt =====
-- server/logger/wildcard_node.go: the names of the nodes.
use mathlib.Core.Logic.{if_pos, if_neg}
use mathlib.Core.Path.{subst}
use peer_calls.Base.{refl, List, [], ◌∷◌}
use peer_calls.Logger.{
  LogLevel, Name, name_discrete, WildcardNode, wildcard_node, Children, childless, child, get_child,
  set_child, child_or_new, add_namespace, add_all,
}
use peer_calls.Logger.Patterns.{Named, AllNamed}

-- The names stay right when a namespace is added.
set_child-AllNamed :
    (s : Name) (t : WildcardNode) (cs : Children)
    → Named s t
    → AllNamed cs
    → AllNamed (set_child s t cs)
unfolding set_child Named
set_child-AllNamed s t childless h hs = (h, tt)
set_child-AllNamed s t (child n u cs) h (k, ks) = elim (name_discrete n s) [
  | yes p ↦ rw (if_pos (name_discrete n s) p) (h, ks)
  | no q ↦ rw (if_neg (name_discrete n s) q) (k, set_child-AllNamed s t cs h ks)
]

child_or_new-Named :
    (s : Name) (cs : Children) → AllNamed cs → Named s (child_or_new s (get_child s cs))
unfolding get_child Named
child_or_new-Named s childless h = (refl, tt)
child_or_new-Named s (child n t cs) (h, hs) = elim (name_discrete n s) [
  | yes p ↦ rw (if_pos (name_discrete n s) p) (subst (λ i. Named i t) p h)
  | no q ↦ rw (if_neg (name_discrete n s) q) (child_or_new-Named s cs hs)
]

add_namespace-Named :
    (ns : List Name) (l : LogLevel) (s : Name) (t : WildcardNode)
    → Named s t
    → Named s (add_namespace ns l t)
unfolding add_namespace Named
add_namespace-Named [] l s (wildcard_node k n cs) h = h
add_namespace-Named (x ∷ xs) l s (wildcard_node k n cs) (i, h) = (
  i,
  set_child-AllNamed x _ cs
      (add_namespace-Named xs l x (child_or_new x (get_child x cs)) (child_or_new-Named x cs h)) h,
)

pub add_all-Named :
    (config : List (List Name × LogLevel)) (t : WildcardNode)
    → Named [] t
    → Named [] (add_all config t)
unfolding add_all
add_all-Named [] t h = h
add_all-Named ((ns, l) ∷ config) t h =
    add_all-Named config (add_namespace ns l t) (add_namespace-Named ns l [] t h)
