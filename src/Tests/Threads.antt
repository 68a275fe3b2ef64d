-- ===== src/Tests/Threads.antt =====
-- Threads that get and remove locks, and waits.
use azure_shell.Prelude.{
  ℕ, ◌+◌, ◌≡◌, ◌≢◌, refl, Bool, false, none, some, List, [], ◌∷◌, ◌==◌, arith, leb, if◌then◌else◌,
}
use azure_shell.Text.{Text, eq}
use azure_shell.Locks.{Pc, idle, get_check, got, key_error, remove_check, State, step_at, step, run}
use azure_shell.Locks.Agreement.{Fits, IsConsistent, get_resource_lock_agrees}
use azure_shell.Locks.Races.{get_resource_lock_races}
use azure_shell.Waiter.{Outcome, wait_for_task_with_timeout}
use azure_shell.Waiter.Deadline.{Waits, EndsIn, wait_for_task_with_timeout_lem}

abbrev key : Text
key = b'k' ∷ []

-- where the threads stand at first: thread 0 and, with `other`, thread 1 do something
abbrev places : Pc → Pc → ℕ → Pc
places own other t = if t == 0 then own else if t == 1 then other else idle

-- two threads get a lock for a key that has none
abbrev two_gets : State
two_gets = record {
  locks = λ k. none;
  next = 0;
  held = none;
  pc = places (get_check key) (get_check key);
}

two_gets_fit : (t : ℕ) → Fits two_gets.locks two_gets.held t (two_gets.pc t)
two_gets_fit t = ground arith

two_gets-IsConsistent : IsConsistent two_gets
two_gets-IsConsistent = record { fits = two_gets_fit }

-- both get as far as the lock, and take it one after the other
abbrev schedule : List ℕ
schedule = 0 ∷ 1 ∷ 0 ∷ 0 ∷ 0 ∷ 0 ∷ 0 ∷ 1 ∷ 1 ∷ 1 ∷ 1 ∷ []

get_resource_lock_agrees_example : (run schedule two_gets).pc 1 ≢ got key 5
unfolding run step step_at eq
get_resource_lock_agrees_example =
    get_resource_lock_agrees schedule two_gets two_gets-IsConsistent 0 1 key 0 5 refl (omega arith)

-- thread 0 gets a lock that thread 1 removes
abbrev get_and_remove : State
get_and_remove = record {
  locks = λ k. if eq k key then some 0 else none;
  next = 1;
  held = none;
  pc = places (get_check key) (remove_check key);
}

get_resource_lock_races_example :
    (run (0 ∷ 1 ∷ 1 ∷ 1 ∷ 1 ∷ 0 ∷ []) get_and_remove).pc 0 ≡ key_error key
unfolding eq
get_resource_lock_races_example =
    get_resource_lock_races get_and_remove 0 1 key 0 (omega arith) refl refl refl refl

-- a task that is done in round 5, a wait that is never cancelled, and a clock that starts at 100
abbrev done_in_5 : ℕ → Bool
done_in_5 i = leb 5 i

abbrev never : ℕ → Bool
never i = false

abbrev clock : ℕ → ℕ
clock i = 100 + i

wait_for_task_with_timeout_example :
    (o : Outcome) × (wait_for_task_with_timeout done_in_5 never clock 3 4 ≡ some o)
    × ((m : ℕ) × Waits done_in_5 never clock 3 m × EndsIn done_in_5 never clock 3 o m)
wait_for_task_with_timeout_example =
    wait_for_task_with_timeout_lem done_in_5 never clock 3 (λ j. omega arith)
