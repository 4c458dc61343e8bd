-- ===== src/Muxer/Conns.antt =====
-- server/stringmux/stringmux.go: the connections in the map `conns`, and what closing them does.
use mathlib.Core.Logic.{if_pos, if_neg}
use peer_calls.Base.{
  ℕ, suc, ◌<◌, ◌≡◌, ◌≢◌, ◌∙◌, refl, sym, arith, Bool, true, false, some, List, [], ◌∷◌, All,
  All-map, ==_ne, ==_refl,
}
use peer_calls.Base.Dict.{get, set, delete}
use peer_calls.Base.Entries.{get-All, set-All, delete-All}
use peer_calls.Muxer.{Conn, Muxer, mark, close_conn, close_conns}

pub mark-other : {A : Type 0} (i j : ℕ) (a : A) (f : ℕ → A) → i ≢ j → mark i a f j ≡ f j
mark-other i j a f n = rw (==_ne i j n) refl

pub mark-closed : (i j : ℕ) (f : ℕ → Bool) → f j ≡ true → mark i true f j ≡ true
mark-closed i j f h = ground (arith, h)

module _ {K : Type 0} where
  -- An entry is a connection of its name that was made and is not closed.
  abbrev pub IsOpen : (ℕ → Bool) → ℕ → K × Conn K → Type 0
  IsOpen is_closed next e = (e.1.stream_id ≡ e.0) × (e.1.ref < next) × (is_closed e.1.ref ≡ false)

  abbrev pub Differs : ℕ → K × Conn K → Type 0
  Differs r e = e.1.ref ≢ r

  -- No connection is in the map twice.
  abbrev pub Apart : List (K × Conn K) → Type 0
  Apart [] = Unit
  Apart (e ∷ m) = All (Differs e.1.ref) m × Apart m

  pub IsOpen-next :
      (is_closed : ℕ → Bool) (next : ℕ) (m : List (K × Conn K))
      → All (IsOpen is_closed next) m
      → All (IsOpen is_closed (suc next)) m
  IsOpen-next is_closed next m h = All-map (λ e (n, r, o). (n, omega arith, o)) m h

  -- A number that was not given yet is no entry's.
  pub IsOpen-Differs :
      (is_closed : ℕ → Bool) (next : ℕ) (m : List (K × Conn K))
      → All (IsOpen is_closed next) m
      → All (Differs next) m
  IsOpen-Differs is_closed next m h = All-map (λ e (n, r, o) same. omega (arith, same)) m h

  -- Closing another connection leaves the entries open.
  pub mark-IsOpen :
      (i : ℕ) (is_closed : ℕ → Bool) (next : ℕ) (m : List (K × Conn K))
      → All (Differs i) m
      → All (IsOpen is_closed next) m
      → All (IsOpen (mark i true is_closed) next) m
  mark-IsOpen i is_closed next [] d h = tt
  mark-IsOpen i is_closed next (e ∷ m) (d, ds) ((n, r, o), hs) = (
    (n, r, mark-other i e.1.ref true is_closed (λ same. d (sym same)) ∙ o),
    mark-IsOpen i is_closed next m ds hs,
  )

  module _ (dec : Discrete K) where
    pub set-Apart :
        (k : K) (c : Conn K) (m : List (K × Conn K))
        → Apart m
        → All (Differs c.ref) m
        → Apart (set dec k c m)
    unfolding set
    set-Apart k c [] a d = (tt, tt)
    set-Apart k c ((j, w) ∷ m) (a, ra) (d, ds) = elim (dec j k) [
      | yes e ↦ rw (if_pos (dec j k) e) (ds, ra)
      | no n ↦
          rw (if_neg (dec j k) n)
            (set-All dec (Differs w.ref) k c m a (λ e. d (sym e)), set-Apart k c m ra ds)
    ]

    pub delete-Apart : (k : K) (m : List (K × Conn K)) → Apart m → Apart (delete dec k m)
    unfolding delete
    delete-Apart k [] a = tt
    delete-Apart k ((j, w) ∷ m) (a, ra) = elim (dec j k) [
      | yes e ↦ rw (if_pos (dec j k) e) (delete-Apart k m ra)
      | no n ↦ rw (if_neg (dec j k) n) (delete-All dec (Differs w.ref) k m a, delete-Apart k m ra)
    ]

    -- The entry of a name is no other name's.
    pub delete-Differs :
        (k : K) (c : Conn K) (m : List (K × Conn K))
        → Apart m
        → get dec k m ≡ some c
        → All (Differs c.ref) (delete dec k m)
    unfolding get delete
    delete-Differs k c [] a e = tt
    delete-Differs k c ((j, w) ∷ m) (a, ra) e = elim (dec j k) [
      | yes p ↦
          let same : some w ≡ some c = sym (if_pos (dec j k) p (some w) (get dec k m)) ∙ e in
          let refs : w.ref ≡ c.ref = cc same in
          rw (if_pos (dec j k) p)
            (delete-All dec (Differs c.ref) k m (All-map (λ f n q. n (q ∙ sym refs)) m a))
      | no n ↦
          let found : get dec k m ≡ some c = sym (if_neg (dec j k) n _ _) ∙ e in
          rw (if_neg (dec j k) n)
            ((λ q. get-All dec (Differs w.ref) k m a found (sym q)), delete-Differs k c m ra found)
    ]

  pub close_conn_open :
      (c : Conn K) (m : Muxer K)
      → m.is_closed c.ref ≡ false
      → close_conn c m ≡ some (record m { is_closed = mark c.ref true m.is_closed })
  unfolding close_conn
  close_conn_open c m o = rw o refl

  -- Closing open connections that are apart closes them, and does not panic.
  pub close_conns_lem :
      (cs : List (K × Conn K)) (m : Muxer K)
      → All (λ e. m.is_closed e.1.ref ≡ false) cs
      → Apart cs
      → (m' : Muxer K) × (close_conns cs m ≡ some m')
        × ((r : ℕ) → m.is_closed r ≡ true → m'.is_closed r ≡ true)
        × All (λ e. m'.is_closed e.1.ref ≡ true) cs
  unfolding close_conns
  close_conns_lem [] m o a = (m, refl, (λ r h. h), tt)
  close_conns_lem ((k, c) ∷ cs) m (o, os) (a, ra) =
      let m1 : Muxer K = record m { is_closed = mark c.ref true m.is_closed } in
      let (m2, e, keeps, all) = close_conns_lem cs m1 (open_after c.ref m.is_closed cs a os) ra in
      (
        m2,
        rw (close_conn_open c m o, close_conns) e,
        (λ r h. keeps r (mark-closed c.ref r m.is_closed h)),
        (keeps c.ref (rw (==_refl c.ref) refl), all),
      )
    where
      open_after :
          (i : ℕ) (f : ℕ → Bool) (cs : List (K × Conn K))
          → All (Differs i) cs
          → All (λ e. f e.1.ref ≡ false) cs
          → All (λ e. mark i true f e.1.ref ≡ false) cs
      open_after i f [] a o = tt
      open_after i f (e ∷ cs) (a, ra) (o, os) =
          (mark-other i e.1.ref true f (λ q. a (sym q)) ∙ o, open_after i f cs ra os)
