-- ===== src/Memory.antt =====
-- server/memoryadapter.go: the
-- clients of one room in memory. `ClientWriter.Write` is a parameter, by client and message: true
-- where it returns no error. What is written is a list of clients and messages. The client's
-- metadata, which its `SetMetadata` changes, stands in the map; the order of the map is the one in
-- which Go goes through it.
pub mod Delivery
mod Examples
use native.Mathlib.Decide.{ℕ_discrete}
use peer_calls.Base.{
  ℕ, Bool, true, false, Option, none, some, List, [], ◌∷◌, ◌++◌, if◌then◌else◌, length,
}
use peer_calls.MultiErr.{MultiErr, add_error, err}
use peer_calls.Base.Dict.{get, set, delete}

pub data Message : Type 0 where
  room_join : ℕ → ℕ → ℕ → Message
  room_leave : ℕ → ℕ → Message
  other_message : ℕ → Message

pub data AdapterError : Type 0 where
  duplicate_client_id client_not_found write_failed : AdapterError

pub record MemoryAdapter : Type 0 where
  pub room : ℕ
  pub clients : List (ℕ × ℕ)

unfoldable pub new_memory_adapter : ℕ → MemoryAdapter
new_memory_adapter room = record { room = room; clients = [] }

abbrev pub keys : List (ℕ × ℕ) → List ℕ
keys [] = []
keys ((k, v) ∷ m) = k ∷ keys m

abbrev pub Written : Type 0
Written = List (ℕ × Message)

module _ (writes : ℕ → Message → Bool) where
  unfoldable pub emit_to : ℕ → Message → Option ℕ → Written × Option AdapterError
  emit_to id msg none = ([], some client_not_found)
  emit_to id msg (some metadata) =
      ((id, msg) ∷ [], (if writes id msg then none else some write_failed))

  unfoldable pub emit : ℕ → Message → MemoryAdapter → Written × Option AdapterError
  unfolding emit_to
  emit id msg m = emit_to id msg (get ℕ_discrete id m.clients)

  -- The loop of `broadcast`, which collects the error where `err == nil`.
  unfoldable pub broadcast_loop :
      List ℕ
      → Message
      → MemoryAdapter
      → Written × MultiErr AdapterError
      → Written × MultiErr AdapterError
  broadcast_loop [] msg m acc = acc
  broadcast_loop (id ∷ ids) msg m (written, errs) =
      let (more, e) = emit id msg m in
      broadcast_loop ids msg m
        (written ++ more, elim e [ none ↦ add_error none errs | some _ ↦ errs ])

  unfoldable pub broadcast : Message → MemoryAdapter → Written × Option (MultiErr AdapterError)
  broadcast msg m =
      let (written, errs) = broadcast_loop (keys m.clients) msg m ([], []) in (written, err errs)

  unfoldable pub add_at :
      ℕ → ℕ → Option ℕ → MemoryAdapter → MemoryAdapter × Written × Option (MultiErr AdapterError)
  add_at id metadata (some _) m = (m, [], some (duplicate_client_id ∷ []))
  add_at id metadata none m =
      let m' = record m { clients = set ℕ_discrete id metadata m.clients } in
      let (written, error) = broadcast (room_join m.room id metadata) m' in (m', written, error)

  unfoldable pub add :
      ℕ → ℕ → MemoryAdapter → MemoryAdapter × Written × Option (MultiErr AdapterError)
  unfolding add_at
  add id metadata m = add_at id metadata (get ℕ_discrete id m.clients) m

  unfoldable pub remove :
      ℕ → MemoryAdapter → MemoryAdapter × Written × Option (MultiErr AdapterError)
  remove id m =
      let m' = record m { clients = delete ℕ_discrete id m.clients } in
      let (written, error) = broadcast (room_leave m.room id) m' in (m', written, error)

unfoldable pub metadata_of : ℕ → MemoryAdapter → Option ℕ
metadata_of id m = get ℕ_discrete id m.clients

-- `SetMetadata`: whether there is such a client.
unfoldable pub set_metadata : ℕ → ℕ → MemoryAdapter → MemoryAdapter × Bool
set_metadata id metadata m = elim (get ℕ_discrete id m.clients) [
  | none ↦ (m, false)
  | some _ ↦ (record m { clients = set ℕ_discrete id metadata m.clients }, true)
]

unfoldable pub size : MemoryAdapter → ℕ
size m = length m.clients
