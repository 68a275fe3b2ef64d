-- ===== src/Waiter.antt =====
-- package/cloudshell/cp/azure/domain/services/task_waiter.py and
-- package/cloudshell/cp/azure/domain/services/command_cancellation.py.
--
-- What the waiter observes is given by the index of the observation: `done i` is the answer of the
-- i-th call of `operation_poller.done()`, `cancelled i` the value of `is_cancelled` in round i, and
-- `now i` the i-th reading of the clock. The loops take fuel; `none` means that it ran out.
pub mod Deadline
use azure_shell.Prelude.{
  ℕ, zero, suc, ◌+◌, Bool, true, false, not, ◌&&◌, Option, none, some, ltb, if◌then◌else◌,
}
use azure_shell.Text.{text}
use azure_shell.Errors.{Result, ok, err, Error, ErrorKind, exception}
use azure_shell.Prelude.{⊤}

-- `CommandCancellationService.check_if_cancelled`
unfoldable pub check_if_cancelled : Bool → Result ⊤
check_if_cancelled is_cancelled =
    if is_cancelled
    then err (exception ErrorKind.cancellation_exception (text "Command was cancelled"))
    else ok tt

-- how a wait ends: with a call of `operation_poller.result()` in round `i`, or with an exception
pub data Outcome : Type 0 where
  result_of : ℕ → Outcome
  raised : Error → Outcome

abbrev pub timed_out : Outcome
timed_out = raised (exception ErrorKind.quali_timeout (text ""))

module _ (done cancelled : ℕ → Bool) where
  -- `TaskWaiterService.wait_for_task`, from round `i` on
  unfoldable pub wait_for_task : ℕ → ℕ → Option Outcome
  wait_for_task zero i = none
  wait_for_task (suc fuel) i =
      let rest = wait_for_task fuel (suc i) in
      if done i
      then some (result_of i)
      else elim (check_if_cancelled (cancelled i)) [ err e ↦ some (raised e) | ok _ ↦ rest ]

  module _ (now : ℕ → ℕ) where
    -- the code behind the loop, which ended in round `i`
    unfoldable pub after_loop : ℕ → ℕ → Outcome
    after_loop next_time i =
        if not (done (suc i)) && ltb next_time (now i) then timed_out else result_of i

    unfoldable pub timeout_loop : ℕ → ℕ → ℕ → Option Outcome
    timeout_loop next_time zero i = none
    timeout_loop next_time (suc fuel) i =
        let rest = timeout_loop next_time fuel (suc i) in
        if not (done i) && ltb (now i) next_time
        then elim (check_if_cancelled (cancelled i)) [ err e ↦ some (raised e) | ok _ ↦ rest ]
        else some (after_loop next_time i)

    -- `TaskWaiterService.wait_for_task_with_timeout`
    unfoldable pub wait_for_task_with_timeout : ℕ → ℕ → Option Outcome
    wait_for_task_with_timeout timeout fuel = timeout_loop (now 0 + timeout) fuel 0
