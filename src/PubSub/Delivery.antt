-- ===== src/PubSub/Delivery.antt =====
-- server/pubsub/events.go: the map of the subscribers' channels.
use native.Mathlib.Decide.{ℕ_discrete}
use mathlib.Core.Logic.{if_pos, if_neg}
use mathlib.Core.Path.{subst}
use peer_calls.Base.{
  ℕ, ◌+◌, ◌≤◌, ◌<◌, ◌≡◌, ◌≢◌, ◌∙◌, refl, ap, arith, Option, none, some, List, [], ◌∷◌, ◌==◌,
  if◌then◌else◌, Option-cases, ==_ne, ==_refl, inl, inr, sym,
}
use peer_calls.Base.Dict.{
  get, set, delete, get-set_ne, get-delete_ne, get-delete_self, get-set_self,
}
use peer_calls.Base.Keys.{
  Lacks, IsMap, delete-Lacks, Lacks-delete, none-Lacks, IsMap-delete, IsMap-set,
}
use peer_calls.PubSub.Hub.{
  SubRequestType, request_subscribe, request_unsubscribe, Hub, end_existing, subscribe_if,
  hub_request,
}

-- How often a channel stands in the map: once under a client, if at all.
abbrev pub hit : Option ℕ → ℕ → ℕ
hit none k = 0
hit (some j) k = if j == k then 1 else 0

abbrev pub uses : ℕ → List (ℕ × ℕ) → ℕ
uses k [] = 0
uses k ((c, j) ∷ m) = hit (some j) k + uses k m

uses-delete :
    (k c : ℕ) (m : List (ℕ × ℕ))
    → IsMap m
    → uses k (delete ℕ_discrete c m) + hit (get ℕ_discrete c m) k ≡ uses k m
unfolding delete get
uses-delete k c [] h = refl
uses-delete k c ((i, j) ∷ m) (l, h) = elim (ℕ_discrete i c) [
  | yes p ↦ rw (if_pos (ℕ_discrete i c) p) (
      rw (if_pos (ℕ_discrete i c) p)
        (omega (arith, ap (uses k) (Lacks-delete c m (subst (λ t. Lacks t m) p l)))))
  | no n ↦
      rw (if_neg (ℕ_discrete i c) n)
        (rw (if_neg (ℕ_discrete i c) n) (omega (arith, uses-delete k c m h)))
]

uses-set :
    (k c j : ℕ) (m : List (ℕ × ℕ))
    → Lacks c m
    → uses k (set ℕ_discrete c j m) ≡ hit (some j) k + uses k m
unfolding set
uses-set k c j [] h = refl
uses-set k c j ((i, w) ∷ m) (n, h) =
    rw (if_neg (ℕ_discrete i c) n) (omega (arith, uses-set k c j m h))

-- Each client is in the map once, each channel too, and the channels that are there have been made.
pub record IsHub (h : Hub) : Type 0 where
  pub is_map : IsMap h.subs
  pub once : (k : ℕ) → uses k h.subs ≤ 1
  pub made : (k : ℕ) → h.next_channel ≤ k → uses k h.subs ≡ 0

pub get-uses : (c k : ℕ) (m : List (ℕ × ℕ)) → get ℕ_discrete c m ≡ some k → 1 ≤ uses k m
unfolding get
get-uses c k [] e = cc e
get-uses c k ((i, j) ∷ m) e = grind (arith, get-uses c k m)

ended :
    (c : ℕ) (o : Option ℕ) (h : Hub)
    → IsHub h
    → get ℕ_discrete c h.subs ≡ o
    → IsHub (end_existing c o h)
      × Lacks c (end_existing c o h).subs
      × ((k : ℕ) → uses k (end_existing c o h).subs + hit o k ≡ uses k h.subs)
      × ((end_existing c o h).next_channel ≡ h.next_channel)
unfolding end_existing
ended c none h i e = (i, none-Lacks c h.subs e, (λ k. omega arith), refl)
ended c (some j) h i e =
    let less : (k : ℕ) → uses k (delete ℕ_discrete c h.subs) + hit (some j) k ≡ uses k h.subs =
      λ k. omega (arith, uses-delete k c h.subs i.is_map, ap (λ o. hit o k) e) in
    (
      record {
        is_map = IsMap-delete c h.subs i.is_map;
        once = λ k. omega (arith, less k, i.once k);
        made = λ k m. omega (arith, less k, i.made k m);
      },
      delete-Lacks c h.subs,
      less,
      refl,
    )

subscribed :
    (c : ℕ) (typ : SubRequestType) (h : Hub)
    → IsHub h
    → Lacks c h.subs
    → IsHub (subscribe_if c typ h).0
      × ((k : ℕ) → k < h.next_channel → uses k (subscribe_if c typ h).0.subs ≡ uses k h.subs)
      × (h.next_channel ≤ (subscribe_if c typ h).0.next_channel)
unfolding subscribe_if
subscribed c request_unsubscribe h i l = (i, (λ k m. refl), omega arith)
subscribed c request_subscribe h i l =
    let more : (k : ℕ)
        → uses k (set ℕ_discrete c h.next_channel h.subs)
          ≡ hit (some h.next_channel) k + uses k h.subs =
      λ k. uses-set k c h.next_channel h.subs l in
    (
      record {
        is_map = IsMap-set c h.next_channel h.subs i.is_map;
        once = λ k. ground (arith, more k, i.once k, i.made k);
        made = λ k m. ground (arith, more k, i.made k);
      },
      (λ k m. ground (arith, more k)),
      omega arith,
    )

end_existing-other :
    (c c' : ℕ) (o : Option ℕ) (h : Hub)
    → c ≢ c'
    → get ℕ_discrete c' (end_existing c o h).subs ≡ get ℕ_discrete c' h.subs
unfolding end_existing
end_existing-other c c' none h n = refl
end_existing-other c c' (some j) h n = get-delete_ne ℕ_discrete c c' h.subs n

subscribe_if-other :
    (c c' : ℕ) (typ : SubRequestType) (h : Hub)
    → c ≢ c'
    → get ℕ_discrete c' (subscribe_if c typ h).0.subs ≡ get ℕ_discrete c' h.subs
unfolding subscribe_if
subscribe_if-other c c' request_unsubscribe h n = refl
subscribe_if-other c c' request_subscribe h n = get-set_ne ℕ_discrete c c' h.next_channel h.subs n

-- A request leaves the hub in order, ends the client's channel, and leaves the other clients theirs.
pub request_lem :
    (c k : ℕ) (typ : SubRequestType) (h : Hub)
    → IsHub h
    → k < h.next_channel
    → let h' = (hub_request c typ h).0 in
      IsHub h'
      × (k < h'.next_channel)
      × (uses k h'.subs + hit (get ℕ_discrete c h.subs) k ≡ uses k h.subs)
      × ((c' : ℕ) → c ≢ c' → get ℕ_discrete c' h'.subs ≡ get ℕ_discrete c' h.subs)
unfolding hub_request
request_lem c k typ h i m =
    let o = get ℕ_discrete c h.subs in
    let (i1, l, less, same) = ended c o h i refl in
    let h1 = end_existing c o h in
    let (i2, keep, grows) = subscribed c typ h1 i1 l in
    (
      i2,
      omega (arith, m, same, grows),
      omega (arith, keep k (omega (arith, m, same)), less k),
      λ c' n. subscribe_if-other c c' typ h1 n ∙ end_existing-other c c' o h n,
    )

end_existing_gone :
    (c : ℕ) (h : Hub) → get ℕ_discrete c (end_existing c (get ℕ_discrete c h.subs) h).subs ≡ none
unfolding end_existing
end_existing_gone c h = elim (Option-cases (get ℕ_discrete c h.subs)) [
  | inl e ↦ rw e e
  | inr (k, e) ↦ rw e (get-delete_self ℕ_discrete c h.subs)
]

-- After a request the client has a channel if it subscribed, and none if it did not.
pub request-get :
    (c c' : ℕ) (typ : SubRequestType) (h : Hub)
    → get ℕ_discrete c' (hub_request c typ h).0.subs
      ≡ (if c == c' then (hub_request c typ h).2 else get ℕ_discrete c' h.subs)
unfolding hub_request
request-get c c' typ h = elim (ℕ_discrete c c') [
  | yes p ↦
      rw (ap (λ i. c == i) (sym p) ∙ ==_refl c)
        (ap (λ i. get ℕ_discrete i (hub_request c typ h).0.subs) (sym p) ∙ own typ)
  | no n ↦ rw (==_ne c c' n) (
      subscribe_if-other c c' typ (end_existing c (get ℕ_discrete c h.subs) h) n
      ∙ end_existing-other c c' (get ℕ_discrete c h.subs) h n)
]
  where
    own :
        (typ : SubRequestType)
        → get ℕ_discrete c (hub_request c typ h).0.subs ≡ (hub_request c typ h).2
    own request_unsubscribe = unfold subscribe_if in end_existing_gone c h
    own request_subscribe =
        unfold subscribe_if in
        get-set_self ℕ_discrete c (end_existing c (get ℕ_discrete c h.subs) h).next_channel
          (end_existing c (get ℕ_discrete c h.subs) h).subs
