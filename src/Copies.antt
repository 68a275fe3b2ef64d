-- ===== src/Copies.antt =====
-- `copy_blob` of package/cloudshell/cp/azure/domain/services/storage_service.py: threads that copy one
-- image, interleaved. Code under `_copied_blob_urls_lock` that writes the dictionary once is one step.
pub mod Exclusion
pub mod Races
pub mod Waiting
pub mod Polls
use azure_shell.Prelude.{ℕ, ◌≡◌, Bool, true, false, Option, none, some, ◌==◌, if◌then◌else◌}
use azure_shell.Text.{Text}

-- models/blob_copy_operation.py
pub data BlobCopyOperationState : Type 0 where
  copying success failed : BlobCopyOperationState

-- `self._cached_copied_blob_urls[copied_blob_key]`
pub record Entry : Type 0 where
  pub state : BlobCopyOperationState
  pub result : Option Text

-- where a thread stands; a URL is the one that `_copy_blob` has returned
pub data Pc : Type 0 where
  checking deciding waiting copying_blob marking_failed reading raised : Pc
  marking_success storing : Text → Pc
  returned : Option Text → Pc

-- the entry of the image, the thread that holds the lock, and the threads
pub record State : Type 0 where
  pub entry : Option Entry
  pub held : Option ℕ
  pub pc : ℕ → Pc

abbrev pub state_of : Option Entry → Option BlobCopyOperationState
state_of none = none
state_of (some e) = some e.state

abbrev pub result_of : Option Entry → Option Text
result_of none = none
result_of (some e) = e.result

abbrev pub set_pc : ℕ → Pc → (ℕ → Pc) → ℕ → Pc
set_pc t p f = λ u. if t == u then p else f u

abbrev pub goto : ℕ → Pc → State → State
goto t p s = record s { pc = set_pc t p s.pc }

-- the test before the lock
abbrev pub after_check : Option BlobCopyOperationState → Pc
after_check (some success) = reading
after_check _ = deciding

-- the decision under the lock, and what it writes
abbrev pub after_decision : Option BlobCopyOperationState → Pc
after_decision none = copying_blob
after_decision (some failed) = copying_blob
after_decision (some copying) = waiting
after_decision (some success) = reading

abbrev pub started : Entry
started = record { state = copying; result = none }

abbrev pub entry_after_decision : Option Entry → Option BlobCopyOperationState → Option Entry
entry_after_decision entry none = some started
entry_after_decision entry (some failed) = some started
entry_after_decision entry (some copying) = entry
entry_after_decision entry (some success) = entry

-- one round of the loop that waits
abbrev pub after_round : Option BlobCopyOperationState → Pc
after_round (some success) = reading
after_round (some failed) = raised
after_round _ = waiting

-- `cache[key]["state"] = state` and `cache[key]["result"] = url`
abbrev pub set_state : BlobCopyOperationState → Option Entry → Option Entry
set_state state none = none
set_state state (some e) = some (record e { state = state })

abbrev pub set_result : Text → Option Entry → Option Entry
set_result url none = none
set_result url (some e) = some (record e { result = some url })

-- what thread `t` may do next
pub data Step (t : ℕ) (s : State) : State → Type 0 where
  check : s.pc t ≡ checking → Step t s (goto t (after_check (state_of s.entry)) s)
  decide :
      s.pc t ≡ deciding
      → s.held ≡ none
      → Step t s (record (goto t (after_decision (state_of s.entry)) s) {
        entry = entry_after_decision s.entry (state_of s.entry);
      })
  cancel : s.pc t ≡ waiting → Step t s (goto t raised s)
  wait : s.pc t ≡ waiting → Step t s (goto t (after_round (state_of s.entry)) s)
  copied : (url : Text) → s.pc t ≡ copying_blob → Step t s (goto t (marking_success url) s)
  not_copied : s.pc t ≡ copying_blob → Step t s (goto t marking_failed s)
  mark_failed :
      s.pc t ≡ marking_failed
      → s.held ≡ none
      → Step t s (record (goto t raised s) { entry = set_state failed s.entry })
  mark_success :
      (url : Text)
      → s.pc t ≡ marking_success url
      → s.held ≡ none
      → Step t s
          (record (goto t (storing url) s) { entry = set_state success s.entry; held = some t })
  store :
      (url : Text)
      → s.pc t ≡ storing url
      → Step t s (record (goto t reading s) { entry = set_result url s.entry; held = none })
  read : s.pc t ≡ reading → Step t s (goto t (returned (result_of s.entry)) s)

-- steps of the threads in any order
pub data Run (s : State) : State → Type 0 where
  done : Run s s
  then_step : {u v : State} → Run s u → (t : ℕ) → Step t u v → Run s v

-- nobody has done anything yet
abbrev pub initial : State
initial = record { entry = none; held = none; pc = λ t. checking }
