-- ===== src/Power.antt =====
-- package/cloudshell/cp/azure/domain/vm_management/operations/power_operation.py and
-- package/cloudshell/cp/azure/domain/services/parsers/custom_param_extractor.py.
use azure_shell.Prelude.{
  Bool, ◌||◌, false, Option, none, some, List, [], ◌∷◌, keep, if◌then◌else◌, ⊤,
}
use azure_shell.Text.{Text, text, eq}
use azure_shell.Text.Edit.{lower}
use azure_shell.Errors.{ErrorKind, exception}
use azure_shell.Cloud.{Azure, set_live_status}
use azure_shell.Effects.{M, ◌>>◌, pure, raise, call}
use azure_shell.Effects.Retry.{Retrying}
use azure_shell.VirtualMachines.{start_vm_of, stop_vm}

-- a custom parameter of a VM: its name and its value
abbrev pub Param : Type 0
Param = Text × Text

-- `params[0].value` where there is exactly one
unfoldable pub only_value : List Param → Option Text
only_value ((name, value) ∷ []) = some value
only_value _ = none

unfoldable pub get_custom_param_value : List Param → Text → Option Text
get_custom_param_value custom_params name =
    only_value (keep (λ param. eq (lower param.0) (lower name)) custom_params)

-- `extension_time_out in ["True", "true", "1"]`
unfoldable pub is_timed_out : Option Text → Bool
is_timed_out none = false
is_timed_out (some value) = eq value (text "True") || eq value (text "true") || eq value (text "1")

module _ (r : Retrying) (z : Azure) (group : Text) where
  unfoldable pub power_on : Text → Text → List Param → M ⊤
  power_on full_name vm_name custom_params =
      (if is_timed_out (get_custom_param_value custom_params (text "extension_time_out"))
        then (call (set_live_status full_name (text "Error") (text "Partially deployed app")) z.done
            >> raise (
                exception ErrorKind.plain_exception (
                  text
                    "Partially deployed app: VM Custom Script Extension failed to compete within the specified timeout")))
        else pure tt)
      >> start_vm_of r z group vm_name

  unfoldable pub power_off : Text → M ⊤
  power_off vm_name = stop_vm r z group vm_name
