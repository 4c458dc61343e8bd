-- ===== src/Mux/Examples.antt =====
-- The theorems about the packets of named streams at concrete inputs.
use peer_calls.Base.{◌≡◌, refl, [], ◌∷◌}
use peer_calls.Mux.{unmarshal, ok}

read_back : unmarshal (200 ∷ 2 ∷ 97 ∷ 98 ∷ 1 ∷ []) ≡ ok (97 ∷ 98 ∷ [], 1 ∷ [])
unfolding unmarshal
read_back = refl
