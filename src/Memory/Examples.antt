-- ===== src/Memory/Examples.antt =====
-- The theorems about the clients of a room at concrete inputs.
use peer_calls.Base.{ℕ, ◌≡◌, Bool, false, none}
use peer_calls.Memory.{
  Message, other_message, MemoryAdapter, new_memory_adapter, keys, broadcast, add,
}
use peer_calls.Memory.Delivery.{copies, broadcast_lem}

-- Every write fails.
abbrev refuses : ℕ → Message → Bool
refuses id msg = false

abbrev one_client : MemoryAdapter
one_client = (add refuses 3 30 (new_memory_adapter 9)).0

broadcast_lem_example :
    broadcast refuses (other_message 1) one_client
    ≡ (copies (other_message 1) (keys one_client.clients), none)
broadcast_lem_example = broadcast_lem refuses (other_message 1) one_client
