-- ===== src/VmNames.antt =====
-- `_prepare_computer_name` and `_prepare_vm_size` of
-- package/cloudshell/cp/azure/domain/vm_management/operations/deploy_operation.py.
pub mod Lengths
use azure_shell.Prelude.{ℕ, Bool, Option, some, List, ◌++◌, if◌then◌else◌}
use azure_shell.Text.{Text, text, is_empty}
use azure_shell.Errors.{ErrorKind, exception, Result, ok, err}
use azure_shell.Cloud.Objects.{OperatingSystem, windows, linux}
use azure_shell.Names.{generate_name}

-- the longest computer name
unfoldable pub max_computer_name : OperatingSystem → ℕ
max_computer_name windows = 15
max_computer_name linux = 64

unfoldable pub prepare_computer_name : Text → Text → Text → OperatingSystem → Text
prepare_computer_name unique name postfix os_type =
    generate_name unique name (some postfix) (max_computer_name os_type)

unfoldable pub prepare_vm_size : Text → Text → Result Text
prepare_vm_size deployment_size provider_size =
    let vm_size = if is_empty deployment_size then provider_size else deployment_size in
    if is_empty vm_size
    then err (
        exception ErrorKind.plain_exception (
          text
            "There is no value for \"VM Size\" attribute neither on the Deployment model nor on the Cloud Provider one"))
    else ok vm_size
