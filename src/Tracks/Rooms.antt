-- ===== src/Tracks/Rooms.antt =====
-- server/sfu/tracks_manager.go: which rooms have a manager.
use native.Mathlib.Decide.{ℕ_discrete}
use mathlib.Core.Path.{subst}
use peer_calls.Base.{
  ℕ, ◌<◌, ◌≡◌, ◌≢◌, ◌∙◌, refl, sym, ap, arith, true, false, Option, none, some, [], ◌∷◌, ◌==◌,
  length, ==_refl, ==_ne, Bool-cases, inl, inr,
}
use peer_calls.Base.Dict.{get, delete, get-delete_self, get-delete_ne}
use peer_calls.Base.Keys.{get-set_if, get-delete_if, get-empty}
use peer_calls.PubSub.Reader.{TrackReader}
use peer_calls.PubSub.Broker.{Transport, Calls, write}
use peer_calls.PubSub.Hub.{new_hub}
use peer_calls.PubSub.Steps.{new-IsSound}
use peer_calls.Peers.{
  PeerManager, add_transport, remove_transport, remove_at, size_of, close_peers, close_transports,
  transport_not_found,
}
use peer_calls.Peers.Removal.{IsRoom, add_transport_lem, remove_transport_lem}
use peer_calls.Tracks.{
  TracksManager, manager_closed, new_peer_manager, manager_or_new, add_peer, transport_done,
}

-- Each room has a manager of its own, which is in order and has a transport.
pub record AllLive (t : TracksManager) : Type 0 where
  pub made : (room ref : ℕ) → get ℕ_discrete room t.peer_managers ≡ some ref → ref < t.next_manager
  pub own :
      (r1 r2 ref : ℕ)
      → get ℕ_discrete r1 t.peer_managers ≡ some ref
      → get ℕ_discrete r2 t.peer_managers ≡ some ref
      → r1 ≡ r2
  pub in_order :
      (room ref : ℕ) → get ℕ_discrete room t.peer_managers ≡ some ref → IsRoom (t.managers ref)
  pub not_empty :
      (room ref : ℕ)
      → get ℕ_discrete room t.peer_managers ≡ some ref
      → (size_of (t.managers ref) == 0) ≡ false

new_peer_manager-IsRoom : (readers : ℕ → TrackReader) → IsRoom (new_peer_manager readers)
unfolding new_peer_manager new_hub get
new_peer_manager-IsRoom readers = record {
  listed = λ c. refl;
  own = λ c tr e. cc e;
  sound = new-IsSound readers;
  running = refl;
}

size_of-get :
    (c : ℕ) (tr : Transport) (m : PeerManager)
    → get ℕ_discrete c m.transports ≡ some tr
    → (size_of m == 0) ≡ false
unfolding size_of
size_of-get c tr m e = elim (Bool-cases (length m.transports == 0)) [
  | inl z ↦ cc (e, get-empty c m.transports (ground (arith, z)))
  | inr n ↦ n
]

size_of-none : (m : PeerManager) → m.transports ≡ [] → (size_of m == 0) ≡ true
unfolding size_of
size_of-none m e = rw e refl

-- The rooms have managers of their own, and those but one are in order.
abbrev LiveBut : ℕ → TracksManager → Type 0
LiveBut ref t =
    ((room i : ℕ) → get ℕ_discrete room t.peer_managers ≡ some i → i < t.next_manager)
    × ((r1 r2 i : ℕ)
        → get ℕ_discrete r1 t.peer_managers ≡ some i
        → get ℕ_discrete r2 t.peer_managers ≡ some i
        → r1 ≡ r2)
    × ((room i : ℕ)
        → get ℕ_discrete room t.peer_managers ≡ some i
        → ref ≢ i
        → IsRoom (t.managers i) × ((size_of (t.managers i) == 0) ≡ false))

AllLive-LiveBut : (ref : ℕ) (t : TracksManager) → AllLive t → LiveBut ref t
AllLive-LiveBut ref t h = (h.made, h.own, λ room i e n. (h.in_order room i e, h.not_empty room i e))

write_same : {A : Type 0} (i : ℕ) (a : A) (f : ℕ → A) → write i a f i ≡ a
write_same i a f = rw (==_refl i) refl

write_other : {A : Type 0} (i j : ℕ) (a : A) (f : ℕ → A) → i ≢ j → write i a f j ≡ f j
write_other i j a f n = rw (==_ne i j n) refl

LiveBut-AllLive :
    (ref : ℕ) (m : PeerManager) (t : TracksManager)
    → LiveBut ref t
    → IsRoom m
    → (size_of m == 0) ≡ false
    → AllLive (record t { managers = write ref m t.managers })
LiveBut-AllLive ref m t (made, own, live) k z = record {
  made = made;
  own = own;
  in_order = λ room i e. elim (ℕ_discrete ref i) [
    | yes p ↦
        subst (λ i. IsRoom (write ref m t.managers i)) p
          (subst IsRoom (sym (write_same ref m t.managers)) k)
    | no n ↦ subst IsRoom (sym (write_other ref i m t.managers n)) (live room i e n).0
  ];
  not_empty = λ room i e. elim (ℕ_discrete ref i) [
    | yes p ↦
        subst (λ i. (size_of (write ref m t.managers i) == 0) ≡ false) p
          (ap (λ m. size_of m == 0) (write_same ref m t.managers) ∙ z)
    | no n ↦ ap (λ m. size_of m == 0) (write_other ref i m t.managers n) ∙ (live room i e n).1
  ];
}

manager_or_new-LiveBut :
    (readers : ℕ → TrackReader) (room : ℕ) (o : Option ℕ) (t : TracksManager)
    → AllLive t
    → get ℕ_discrete room t.peer_managers ≡ o
    → let (t1, ref) = manager_or_new readers room o t in LiveBut ref t1 × IsRoom (t1.managers ref)
manager_or_new-LiveBut readers room (some ref) t h e =
    (AllLive-LiveBut ref t h, h.in_order room ref e)
manager_or_new-LiveBut readers room none t h e = (
  (
    λ r i g. grind (arith, g, get-set_if room r t.next_manager t.peer_managers, h.made r i),
    λ r1 r2 i g1 g2. grind (
      arith,
      get-set_if room r1 t.next_manager t.peer_managers,
      get-set_if room r2 t.next_manager t.peer_managers,
      h.own r1 r2 i,
      h.made r1 i,
      h.made r2 i,
    ),
    λ r i g n.
        let old : get ℕ_discrete r t.peer_managers ≡ some i =
          grind (arith, g, n, get-set_if room r t.next_manager t.peer_managers) in
        let same = write_other t.next_manager i (new_peer_manager readers) t.managers n in
        (
          subst IsRoom (sym same) (h.in_order r i old),
          ap (λ m. size_of m == 0) same ∙ h.not_empty r i old,
        ),
  ),
  subst IsRoom (sym (write_same t.next_manager (new_peer_manager readers) t.managers))
      (new_peer_manager-IsRoom readers),
)

kept :
    (room r i : ℕ) (t : TracksManager)
    → get ℕ_discrete r (delete ℕ_discrete room t.peer_managers) ≡ some i
    → get ℕ_discrete r t.peer_managers ≡ some i
kept room r i t e = grind (arith, e, get-delete_if room r t.peer_managers)

another :
    (room ref r i : ℕ) (t : TracksManager)
    → AllLive t
    → get ℕ_discrete room t.peer_managers ≡ some ref
    → get ℕ_discrete r (delete ℕ_discrete room t.peer_managers) ≡ some i
    → ref ≢ i
another room ref r i t h g e p =
    grind (arith, e, p, g, get-delete_if room r t.peer_managers, h.own room r i)

remove_transport-IsRoom :
    (calls : Calls) (tr : Transport) (m : PeerManager)
    → IsRoom m
    → IsRoom (remove_transport calls tr m).0
remove_transport-IsRoom calls tr m h = elim (remove_transport_lem calls tr m h) [
  | inl (e, same, error) ↦ subst IsRoom (sym same) h
  | inr (existing, e, inl (other, same, error)) ↦ subst IsRoom (sym same) h
  | inr (existing, e, inr (same, r, k, error)) ↦ k
]

module _ (calls : Calls) where
  -- A transport that is not its manager's, of a manager that has none left: the manager is closed
  -- once more, and the room loses its manager, also where this is another one.
  pub transport_done_again :
      (room ref : ℕ) (tr : Transport) (t : TracksManager)
      → (t.managers ref).transports ≡ []
      → ((transport_done calls room ref tr t).1 ≡ manager_closed ref ∷ [])
        × (get ℕ_discrete room (transport_done calls room ref tr t).0.peer_managers ≡ none)
  unfolding transport_done remove_transport close_peers close_transports size_of get
  transport_done_again room ref tr t e =
      let gone : remove_transport calls tr (t.managers ref)
          ≡ (t.managers ref, [], some transport_not_found) =
        ap (λ o. remove_at calls tr o (t.managers ref)) (ap (get ℕ_discrete tr.client_id) e) in
      rw gone (rw e (refl, get-delete_self ℕ_discrete room t.peer_managers))

  -- Where each room has a manager of its own, in order and with a transport, the goroutine of a
  -- transport of a room's manager leaves it so when the transport is done: a room that still has a
  -- manager has one of its own, in order and with a transport. This room keeps its manager where a
  -- transport is left after this one is removed, and has none where none is left; each other room
  -- keeps what it has.
  pub transport_done-AllLive :
      (room ref : ℕ) (tr : Transport) (t : TracksManager)
      → AllLive t
      → get ℕ_discrete room t.peer_managers ≡ some ref
      → let t' = (transport_done calls room ref tr t).0 in
        let left = (remove_transport calls tr (t.managers ref)).0.transports in
        AllLive t'
        × ((c : ℕ) (other : Transport)
            → get ℕ_discrete c left ≡ some other
            → get ℕ_discrete room t'.peer_managers ≡ some ref)
        × (left ≡ [] → get ℕ_discrete room t'.peer_managers ≡ none)
        × ((r : ℕ)
            → room ≢ r
            → get ℕ_discrete r t'.peer_managers ≡ get ℕ_discrete r t.peer_managers)
  unfolding transport_done
  transport_done-AllLive room ref tr t h g =
      let m = (remove_transport calls tr (t.managers ref)).0 in
      let k = remove_transport-IsRoom calls tr (t.managers ref) (h.in_order room ref g) in
      elim (Bool-cases (size_of m == 0)) [
        | inl z ↦ rw z (
          record {
            made = λ r i e. h.made r i (kept room r i t e);
            own = λ r1 r2 i e1 e2. h.own r1 r2 i (kept room r1 i t e1) (kept room r2 i t e2);
            in_order = λ r i e.
                let old = kept room r i t e in
                subst IsRoom
                  (sym
                    (write_other ref i (close_peers m).0 t.managers (another room ref r i t h g e)))
                  (h.in_order r i old);
            not_empty = λ r i e.
                ap (λ m. size_of m == 0)
                  (write_other ref i (close_peers m).0 t.managers (another room ref r i t h g e))
                ∙ h.not_empty r i (kept room r i t e);
          },
          λ c other e. cc (z, size_of-get c other m e),
          λ e. get-delete_self ℕ_discrete room t.peer_managers,
          λ r n. get-delete_ne ℕ_discrete room r t.peer_managers n,
        )
        | inr z ↦ rw z (
          LiveBut-AllLive ref m t (AllLive-LiveBut ref t h) k z,
          λ c other e. g,
          λ e. cc (z, size_of-none m e),
          λ r n. refl,
        )
      ]

  -- `Add` leaves every room that has a manager with one of its own, in order and with a transport.
  pub add_peer-AllLive :
      (readers : ℕ → TrackReader) (room : ℕ) (tr : Transport) (t : TracksManager)
      → AllLive t
      → AllLive (add_peer calls readers room tr t).0
  unfolding add_peer
  add_peer-AllLive readers room tr t h =
      let (t1, ref) : TracksManager × ℕ =
        manager_or_new readers room (get ℕ_discrete room t.peer_managers) t in
      let (live, k) =
        manager_or_new-LiveBut readers room (get ℕ_discrete room t.peer_managers) t h refl in
      let (k', e, i, j, l) = add_transport_lem calls tr (t1.managers ref) k in
      LiveBut-AllLive ref (add_transport calls tr (t1.managers ref)).0 t1 live k'
        (size_of-get tr.client_id tr (add_transport calls tr (t1.managers ref)).0 e)
