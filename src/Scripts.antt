-- ===== src/Scripts.antt =====
-- `VMExtensionService` of package/cloudshell/cp/azure/domain/services/vm_extension.py: the script that
-- runs on a new VM. Regions and tags are left out.
pub mod Validated
use azure_shell.Prelude.{
  Bool, true, false, not, ◌||◌, List, [], ◌∷◌, ◌++◌, map, last_or, if◌then◌else◌, ⊤, ℕ, ◌==◌,
}
use azure_shell.Text.{Text, text, eq, is_empty}
use azure_shell.Text.Edit.{split, strip, rstrip_by}
use azure_shell.Errors.{Result, ok, err, ErrorKind, exception}
use azure_shell.Cloud.{Azure, put_extension, check_url}
use azure_shell.Cloud.Objects.{OperatingSystem, windows, linux, ExtensionBody}
use azure_shell.Effects.{M, ◌>>=◌, ◌>>◌, pure, call}
use azure_shell.Effects.Retry.{Retrying, retry5}

-- `s.endswith(t)`
unfoldable pub ends_with : Text → Text → Bool
ends_with [] t = eq [] t
ends_with (c ∷ cs) t = eq (c ∷ cs) t || ends_with cs t

-- `script_file.rstrip("/")`
abbrev pub without_slashes : Text → Text
without_slashes script_file = rstrip_by (λ c. c == b'/') script_file

unfoldable pub validate_script_extension : OperatingSystem → Text → Text → Result ⊤
validate_script_extension windows script_file script_configurations =
    if not (ends_with (without_slashes script_file) (text "ps1"))
    then err (
        exception ErrorKind.plain_exception
          (text "Invalid format for the PowerShell script. It must have a 'ps1' extension"))
    else ok tt
validate_script_extension linux script_file script_configurations =
    if is_empty script_configurations
    then err (
        exception ErrorKind.plain_exception (
          text
            "Linux Custom Script must have a command to execute in 'Extension Script Configurations' attribute"))
    else ok tt

-- `script_file.rstrip("/").split("/")[-1]`
unfoldable pub file_name_of : Text → Text
file_name_of script_file = last_or [] (split b'/' (without_slashes script_file))

-- `_prepare_linux_vm_script_extension` and `_prepare_windows_vm_script_extension`
unfoldable pub prepare_vm_extension : OperatingSystem → Text → Text → ExtensionBody
prepare_vm_extension linux script_file script_configurations = record {
  publisher = text "Microsoft.OSTCExtensions";
  type_handler_version = text "1.5";
  extension_type = text "CustomScriptForLinux";
  file_uris = map strip (split b',' script_file);
  command_to_execute = script_configurations;
}
prepare_vm_extension windows script_file script_configurations = record {
  publisher = text "Microsoft.Compute";
  type_handler_version = text "1.9";
  extension_type = text "CustomScriptExtension";
  file_uris = script_file ∷ [];
  command_to_execute =
      text "powershell.exe -ExecutionPolicy Unrestricted -File "
      ++ file_name_of script_file
      ++ text " "
      ++ script_configurations;
}

module _ (r : Retrying) (z : Azure) where
  -- `if not check_url(script_file): return False`; otherwise the result of the wait, which may be a
  -- timeout or a cancellation, stands for `true`
  unfoldable pub create_if_valid : Text → Text → ExtensionBody → Bool → M Bool
  create_if_valid group vm_name extension true =
      call (put_extension group vm_name extension) z.done >> pure true
  create_if_valid group vm_name extension false = pure false

  unfoldable pub create_script_extension : Text → Text → OperatingSystem → Text → Text → M Bool
  create_script_extension group vm_name os_type script_file script_configurations = retry5 r (
      call (check_url script_file) z.url_is_valid
      >>= create_if_valid group vm_name
          (prepare_vm_extension os_type script_file script_configurations))
