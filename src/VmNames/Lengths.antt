-- ===== src/VmNames/Lengths.antt =====
-- How long computer names are.
use azure_shell.Prelude.{◌≤◌, ◌≡◌, some, arith, length}
use azure_shell.Text.{Text}
use azure_shell.Names.{postfix_len}
use azure_shell.Names.Generated.{length-generate_name}
use azure_shell.Cloud.Objects.{OperatingSystem, windows, linux}
use azure_shell.VmNames.{max_computer_name, prepare_computer_name}

-- A computer name has at most 15 characters on Windows and 64 elsewhere, if a dash and the postfix of
-- the app have at most 15.
pub length-prepare_computer_name :
    (unique name postfix : Text) (os_type : OperatingSystem)
    → length unique ≡ 8
    → postfix_len (some postfix) ≤ 15
    → length (prepare_computer_name unique name postfix os_type) ≤ max_computer_name os_type
unfolding prepare_computer_name max_computer_name
length-prepare_computer_name unique name postfix windows u fits =
    length-generate_name unique name (some postfix) 15 u fits
length-prepare_computer_name unique name postfix linux u fits =
    length-generate_name unique name (some postfix) 64 u (omega arith)
