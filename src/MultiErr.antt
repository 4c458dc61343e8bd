-- ===== src/MultiErr.antt =====
-- server/multierr/multierr.go: the errors that a loop or a chain of calls collects. `errors` is the
-- list, whose first is `firstError`.
use peer_calls.Base.{Option, none, some, List, [], ◌∷◌, ◌++◌}

abbrev pub MultiErr {ℓ} : Type ℓ → Type ℓ
MultiErr A = List A

module _ {ℓ} {A : Type ℓ} where
  -- `MultiErr.Add`, which leaves out nil.
  unfoldable pub add_error : Option A → MultiErr A → MultiErr A
  add_error none errs = errs
  add_error (some e) errs = errs ++ (e ∷ [])

  -- `MultiErr.Err`: nil, or all the errors.
  unfoldable pub err : MultiErr A → Option (MultiErr A)
  err [] = none
  err (e ∷ es) = some (e ∷ es)
