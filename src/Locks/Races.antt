-- ===== src/Locks/Races.antt =====
-- What `remove_lock_resource` does to threads that get locks.
use azure_shell.Prelude.{ℕ, ◌≡◌, ◌≢◌, none, some, [], ◌∷◌, arith}
use azure_shell.Text.{Text, eq_refl}
use azure_shell.Locks.{get_check, key_error, remove_check, State, step_at, step, run}

-- The test of `get_resource_lock` stands outside `_lock`: a removal of the key by another thread
-- between the test and `return self.lock_dictionary[lock_key]` ends the get with a `KeyError`.
pub get_resource_lock_races :
    (s : State) (t u : ℕ) (k : Text) (l : ℕ)
    → t ≢ u
    → s.locks k ≡ some l
    → s.held ≡ none
    → s.pc t ≡ get_check k
    → s.pc u ≡ remove_check k
    → (run (t ∷ u ∷ u ∷ u ∷ u ∷ t ∷ []) s).pc t ≡ key_error k
unfolding run step step_at
get_resource_lock_races s t u k l other there free pt pu = ground (arith, eq_refl k)
