-- ===== src/Locks.antt =====
-- package/cloudshell/cp/azure/domain/services/lock_service.py: threads that call the methods of one
-- `GenericLockProvider`, interleaved line by line. A lock object is a number, by order of creation.
pub mod Agreement
pub mod Races
use azure_shell.Prelude.{
  ℕ, zero, suc, ◌+◌, Bool, true, false, Option, none, some, List, [], ◌∷◌, ◌==◌, if◌then◌else◌,
}
use azure_shell.Text.{Text, eq}

-- where a thread stands in `get_resource_lock(k)` or `remove_lock_resource(k)`
pub data Pc : Type 0 where
  idle : Pc
  get_check get_wait get_recheck get_create get_release get_read : Text → Pc
  got : Text → ℕ → Pc
  key_error : Text → Pc
  remove_check remove_wait remove_recheck remove_delete remove_release : Text → Pc
  removed : Text → Pc

abbrev pub Locks : Type 0
Locks = Text → Option ℕ

-- `lock_dictionary`, the number of the next lock, the thread that holds `_lock`, and the threads
pub record State : Type 0 where
  pub locks : Locks
  pub next : ℕ
  pub held : Option ℕ
  pub pc : ℕ → Pc

-- `d[k] = v`, or `del d[k]` for `none`
abbrev pub set_lock : Text → Option ℕ → Locks → Locks
set_lock k v d = λ j. if eq k j then v else d j

abbrev pub set_pc : ℕ → Pc → (ℕ → Pc) → ℕ → Pc
set_pc t p f = λ u. if t == u then p else f u

abbrev pub goto : ℕ → Pc → State → State
goto t p s = record s { pc = set_pc t p s.pc }

-- `k in d` decides between two places
abbrev pub branch : Option ℕ → Pc → Pc → Pc
branch none absent present = absent
branch (some l) absent present = present

-- `with self._lock`: a thread waits while the lock is held
abbrev pub acquire : Option ℕ → ℕ → Pc → State → State
acquire none t p s = record (goto t p s) { held = some t }
acquire (some u) t p s = s

-- `return self.lock_dictionary[lock_key]`
abbrev pub read : Text → Option ℕ → Pc
read k none = key_error k
read k (some l) = got k l

unfoldable pub step_at : ℕ → Pc → State → State
step_at t (get_check k) s = goto t (branch (s.locks k) (get_wait k) (get_read k)) s
step_at t (get_wait k) s = acquire s.held t (get_recheck k) s
step_at t (get_recheck k) s = goto t (branch (s.locks k) (get_create k) (get_release k)) s
step_at t (get_create k) s = record (goto t (get_release k) s) {
  locks = set_lock k (some s.next) s.locks;
  next = s.next + 1;
}
step_at t (get_release k) s = record (goto t (get_read k) s) { held = none }
step_at t (get_read k) s = goto t (read k (s.locks k)) s
step_at t (remove_check k) s = goto t (branch (s.locks k) (removed k) (remove_wait k)) s
step_at t (remove_wait k) s = acquire s.held t (remove_recheck k) s
step_at t (remove_recheck k) s = goto t (branch (s.locks k) (remove_release k) (remove_delete k)) s
step_at t (remove_delete k) s = record (goto t (remove_release k) s) {
  locks = set_lock k none s.locks;
}
step_at t (remove_release k) s = record (goto t (removed k) s) { held = none }
step_at t idle s = s
step_at t (got k l) s = s
step_at t (key_error k) s = s
step_at t (removed k) s = s

-- thread `t` runs its next line
unfoldable pub step : ℕ → State → State
step t s = step_at t (s.pc t) s

-- the threads run in the order of a schedule
unfoldable pub run : List ℕ → State → State
run [] s = s
run (t ∷ schedule) s = run schedule (step t s)
