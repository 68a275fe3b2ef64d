-- ===== src/Cancellation.antt =====
-- `check_if_cancelled` of
-- package/cloudshell/cp/azure/domain/services/command_cancellation.py, inside code that makes calls.
use azure_shell.Prelude.{refl, [], ⊤}
use azure_shell.Cloud.{Azure, Call}
use azure_shell.Effects.{M}
use azure_shell.Effects.Emits.{Emits}
use azure_shell.Waiter.{check_if_cancelled}

unfoldable pub check_cancelled : Azure → M ⊤
check_cancelled z h = (check_if_cancelled (z.is_cancelled h), h)

pub Emits-check_cancelled : (P : Call → Type 0) (z : Azure) → Emits P (check_cancelled z)
unfolding check_cancelled
Emits-check_cancelled P z = record { at = λ h. ([], refl, tt) }
