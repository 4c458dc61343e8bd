-- ===== src/Memory/Delivery.antt =====
-- server/memoryadapter.go: who gets which message.
use native.Mathlib.Decide.{ℕ_discrete}
use mathlib.Core.List.{append_assoc, append-nil}
use mathlib.Core.Logic.{if_pos, if_neg}
use peer_calls.Base.{
  ℕ, ◌≡◌, ◌⊎◌, ◌∙◌, sym, ap, refl, Bool, true, false, Option, none, some, List, [], ◌∷◌, ◌++◌, All,
  inl, inr, Option-cases, if◌then◌else◌,
}
use peer_calls.Base.Dict.{
  get, set, delete, get-set_self, get-set_ne, get-delete_self, get-delete_ne,
}
use peer_calls.MultiErr.{MultiErr, add_error, err}
use peer_calls.Memory.{
  Message, room_join, room_leave, AdapterError, duplicate_client_id, write_failed, MemoryAdapter,
  keys, Written, emit, emit_to, broadcast_loop, broadcast, add, add_at, remove, metadata_of,
}

-- One copy of a message for each of some clients.
abbrev pub copies : Message → List ℕ → Written
copies msg [] = []
copies msg (id ∷ ids) = (id, msg) ∷ copies msg ids

-- A client that is in the map.
abbrev pub IsPresent : List (ℕ × ℕ) → ℕ → Type 0
IsPresent m id = (v : ℕ) × (get ℕ_discrete id m ≡ some v)

later :
    (j w : ℕ) (m : List (ℕ × ℕ)) (ids : List ℕ)
    → All (IsPresent m) ids
    → All (IsPresent ((j, w) ∷ m)) ids
later j w m [] h = tt
later j w m (id ∷ ids) ((v, e), h) = (
  elim (ℕ_discrete j id) [
    | yes same ↦ (w, unfold get in rw (if_pos (ℕ_discrete j id) same) refl)
    | no n ↦ (v, unfold get in rw (if_neg (ℕ_discrete j id) n) e)
  ],
  later j w m ids h,
)

keys-IsPresent : (m : List (ℕ × ℕ)) → All (IsPresent m) (keys m)
keys-IsPresent [] = tt
keys-IsPresent ((j, w) ∷ m) = (
  (w, unfold get in rw (if_pos (ℕ_discrete j j) refl) refl),
  later j w m (keys m) (keys-IsPresent m),
)

module _ (writes : ℕ → Message → Bool) where
  emit-present :
      (id v : ℕ) (msg : Message) (m : MemoryAdapter)
      → get ℕ_discrete id m.clients ≡ some v
      → emit writes id msg m ≡ ((id, msg) ∷ [], if writes id msg then none else some write_failed)
  unfolding emit emit_to
  emit-present id v msg m e = rw e refl

  -- Whether a write fails makes no difference to the errors that are collected.
  either_way :
      (id : ℕ) (ids : List ℕ) (msg : Message) (m : MemoryAdapter) (written : Written) (b : Bool)
      → broadcast_loop writes ids msg m (
        written,
        elim (if b then none else some write_failed) [ none ↦ add_error none [] | some _ ↦ [] ],
      )
        ≡ broadcast_loop writes ids msg m (written, [])
  unfolding add_error
  either_way id ids msg m written true = refl
  either_way id ids msg m written false = refl

  broadcast_loop-copies :
      (ids : List ℕ) (msg : Message) (m : MemoryAdapter) (written : Written)
      → All (IsPresent m.clients) ids
      → broadcast_loop writes ids msg m (written, []) ≡ (written ++ copies msg ids, [])
  unfolding broadcast_loop
  broadcast_loop-copies [] msg m written h =
      ap (λ (w : Written). (w, [])) (sym (append-nil written))
  broadcast_loop-copies (id ∷ ids) msg m written ((v, e), h) =
      ap
        (λ (r : Written × Option AdapterError).
          broadcast_loop writes ids msg m
            (written ++ r.0, elim r.1 [ none ↦ add_error none [] | some _ ↦ [] ]))
        (emit-present id v msg m e)
      ∙ either_way id ids msg m (written ++ ((id, msg) ∷ [])) (writes id msg)
      ∙ broadcast_loop-copies ids msg m (written ++ ((id, msg) ∷ [])) h
      ∙ ap (λ (w : Written). (w, [])) (append_assoc written ((id, msg) ∷ []) (copies msg ids))

  -- A broadcast writes the message to every client of the room, once. It returns no error,
  -- whichever of the writes fail.
  pub broadcast_lem :
      (msg : Message) (m : MemoryAdapter)
      → broadcast writes msg m ≡ (copies msg (keys m.clients), none)
  unfolding broadcast err
  broadcast_lem msg m =
      rw (broadcast_loop-copies (keys m.clients) msg m [] (keys-IsPresent m.clients)) refl

  -- A client that is in the room already is refused, and nothing changes or is written. A new one
  -- is in the room afterwards with its metadata, all others keep theirs, and everybody in the
  -- room, the new one too, gets its `RoomJoin`.
  pub add_lem :
      (id metadata other : ℕ) (m : MemoryAdapter)
      → let (m', written, error) = add writes id metadata m in
        ((v : ℕ) × (metadata_of id m ≡ some v)
          × (m' ≡ m)
          × (written ≡ [])
          × (error ≡ some (duplicate_client_id ∷ [])))
        ⊎ ((metadata_of id m ≡ none)
            × (metadata_of id m' ≡ some metadata)
            × ((id ≡ other) ⊎ (metadata_of other m' ≡ metadata_of other m))
            × (written ≡ copies (room_join m.room id metadata) (keys m'.clients))
            × (error ≡ none))
  unfolding add metadata_of
  add_lem id metadata other m = elim (Option-cases (get ℕ_discrete id m.clients)) [
    | inl e ↦
        let m' : MemoryAdapter = record m { clients = set ℕ_discrete id metadata m.clients } in
        let b = broadcast_lem (room_join m.room id metadata) m' in
        inr (
          e,
          rw e (unfold add_at in get-set_self ℕ_discrete id metadata m.clients),
          elim (ℕ_discrete id other) [
            | yes same ↦ inl same
            | no n ↦
                inr (rw e (unfold add_at in get-set_ne ℕ_discrete id other metadata m.clients n))
          ],
          rw e (unfold add_at in ap (λ (r : Written × Option (MultiErr AdapterError)). r.0) b),
          rw e (unfold add_at in ap (λ (r : Written × Option (MultiErr AdapterError)). r.1) b),
        )
    | inr (v, e) ↦ inl (
      v,
      e,
      rw e (unfold add_at in refl),
      rw e (unfold add_at in refl),
      rw e (unfold add_at in refl),
    )
  ]

  -- A removed client is not in the room, all others keep their metadata, and those who are left,
  -- and nobody else, get its `RoomLeave`.
  pub remove_lem :
      (id other : ℕ) (m : MemoryAdapter)
      → let (m', written, error) = remove writes id m in
        (metadata_of id m' ≡ none)
        × ((id ≡ other) ⊎ (metadata_of other m' ≡ metadata_of other m))
        × (written ≡ copies (room_leave m.room id) (keys m'.clients))
        × (error ≡ none)
  unfolding remove metadata_of
  remove_lem id other m =
      let m' : MemoryAdapter = record m { clients = delete ℕ_discrete id m.clients } in
      let b = broadcast_lem (room_leave m.room id) m' in
      (
        get-delete_self ℕ_discrete id m.clients,
        elim (ℕ_discrete id other) [
          | yes same ↦ inl same
          | no n ↦ inr (get-delete_ne ℕ_discrete id other m.clients n)
        ],
        ap (λ (r : Written × Option (MultiErr AdapterError)). r.0) b,
        ap (λ (r : Written × Option (MultiErr AdapterError)). r.1) b,
      )
