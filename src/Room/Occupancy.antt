-- ===== src/Room/Occupancy.antt =====
-- server/room.go: the counters of `AdapterRoomManager`.
use native.Mathlib.Decide.{ℕ_discrete}
use peer_calls.Base.{
  ℕ, ◌+◌, ◌-◌, ◌%◌, ◌<◌, ◌≡◌, sym, refl, arith, Bool, true, false, Option, none, some, ◌==◌,
  if◌then◌else◌, inl, inr, Option-cases, Bool-cases, ltb,
}
use peer_calls.Base.Dict.{
  get, set, delete, get-set_self, get-set_ne, get-delete_self, get-delete_ne,
}
use peer_calls.Room.{AdapterCounter, Rooms, enter, exit, two64}

module _ {ℓ} {A : Type ℓ} where
  abbrev pub count_of : Option (AdapterCounter A) → ℕ
  count_of none = 0
  count_of (some ac) = ac.count

  abbrev pub is_some : Option (AdapterCounter A) → Bool
  is_some none = false
  is_some (some ac) = true

  -- How many are in a room, as its counter says.
  abbrev pub people : Rooms A → ℕ → ℕ
  people rooms k = count_of (get ℕ_discrete k rooms)

  -- A room that is kept has somebody in it.
  abbrev pub AllInUse : Rooms A → Type 0
  AllInUse rooms = (k : ℕ) → is_some (get ℕ_discrete k rooms) ≡ ltb 0 (people rooms k)

  AllInUse-set :
      (room : ℕ) (ac : AdapterCounter A) (rooms : Rooms A)
      → 0 < ac.count
      → AllInUse rooms
      → AllInUse (set ℕ_discrete room ac rooms)
  AllInUse-set room ac rooms pos h k = elim (ℕ_discrete room k) [
    | yes e ↦ rw (sym e) (rw (get-set_self ℕ_discrete room ac rooms) (ground arith))
    | no n ↦ rw (get-set_ne ℕ_discrete room k ac rooms n) (h k)
  ]

  people-set :
      (room : ℕ) (ac : AdapterCounter A) (rooms : Rooms A) (k : ℕ)
      → people (set ℕ_discrete room ac rooms) k ≡ (if k == room then ac.count else people rooms k)
  people-set room ac rooms k = elim (ℕ_discrete room k) [
    | yes e ↦ rw (sym e) (rw (get-set_self ℕ_discrete room ac rooms) (ground arith))
    | no n ↦ rw (get-set_ne ℕ_discrete room k ac rooms n) (ground arith)
  ]

  AllInUse-delete :
      (room : ℕ) (rooms : Rooms A) → AllInUse rooms → AllInUse (delete ℕ_discrete room rooms)
  AllInUse-delete room rooms h k = elim (ℕ_discrete room k) [
    | yes e ↦ rw (sym e) (rw (get-delete_self ℕ_discrete room rooms) refl)
    | no n ↦ rw (get-delete_ne ℕ_discrete room k rooms n) (h k)
  ]

  people-delete :
      (room : ℕ) (rooms : Rooms A) (k : ℕ)
      → people (delete ℕ_discrete room rooms) k ≡ (if k == room then 0 else people rooms k)
  people-delete room rooms k = elim (ℕ_discrete room k) [
    | yes e ↦ rw (sym e) (rw (get-delete_self ℕ_discrete room rooms) (ground arith))
    | no n ↦ rw (get-delete_ne ℕ_discrete room k rooms n) (ground arith)
  ]

  -- Where every room that is kept has somebody in it, and the counter does not overflow: entering
  -- a room counts one more there and none elsewhere, the room is new exactly if it was empty, and
  -- every room that is kept still has somebody in it.
  pub enter_lem :
      (new_adapter : ℕ → A) (room : ℕ) (rooms : Rooms A)
      → AllInUse rooms
      → people rooms room + 1 < two64
      → let (rooms', adapter, is_new) = enter new_adapter room rooms in
        AllInUse rooms'
        × (is_new ≡ (people rooms room == 0))
        × ((k : ℕ) → people rooms' k ≡ (if k == room then people rooms k + 1 else people rooms k))
  unfolding enter
  enter_lem new_adapter room rooms h lt = elim (Option-cases (get ℕ_discrete room rooms)) [
    | inl e ↦
        let new : AdapterCounter A = record { count = 1; adapter = new_adapter room } in
        rw e (
          AllInUse-set room new rooms (omega arith) h,
          refl,
          λ k. ground (arith, people-set room new rooms k, e),
        )
    | inr (ac, e) ↦
        let more : AdapterCounter A = record ac { count = (ac.count + 1) % two64 } in
        rw e (
          AllInUse-set room more rooms (ground (arith, e, h room)) h,
          ground (arith, e, h room),
          λ k. ground (arith, people-set room more rooms k, e),
        )
  ]

  -- Where every room that is kept has somebody in it, and counters are below 2 ^ 64: leaving a
  -- room counts one less there, if there is anybody, and nothing elsewhere; the room is removed
  -- exactly if one was left in it, and every room that is kept still has somebody in it.
  pub exit_lem :
      (room : ℕ) (rooms : Rooms A)
      → AllInUse rooms
      → people rooms room < two64
      → let (rooms', is_removed, closed) = exit {A = A} room rooms in
        AllInUse rooms'
        × (is_removed ≡ (people rooms room == 1))
        × ((k : ℕ) → people rooms' k ≡ (if k == room then people rooms k - 1 else people rooms k))
  unfolding exit
  exit_lem room rooms h lt = elim (Option-cases (get ℕ_discrete room rooms)) [
    | inl e ↦ rw e (h, refl, λ k. ground (arith, e))
    | inr (ac, e) ↦
        let less : AdapterCounter A = record ac { count = (ac.count + two64 - 1) % two64 } in
        elim (Bool-cases (less.count == 0)) [
          | inl z ↦ rw e (
              rw z (
                AllInUse-delete room rooms h,
                ground (arith, e, h room, z),
                λ k. ground (arith, people-delete room rooms k, e, h room, z),
              ))
          | inr n ↦ rw e (
              rw n (
                AllInUse-set room less rooms (ground (arith, n)) h,
                ground (arith, e, h room, n),
                λ k. ground (arith, people-set room less rooms k, e, h room, n),
              ))
        ]
  ]
