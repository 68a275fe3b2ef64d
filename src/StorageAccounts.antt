-- ===== src/StorageAccounts.antt =====
-- The storage accounts of package/cloudshell/cp/azure/domain/services/storage_service.py. Regions and
-- tags are left out.
use azure_shell.Prelude.{List, [], ◌∷◌, ◌++◌, length}
use azure_shell.Text.{Text, text}
use azure_shell.Text.Decimal.{show}
use azure_shell.Errors.{ErrorKind, exception}
use azure_shell.Cloud.{Azure, list_storage_accounts, put_storage_account}
use azure_shell.Effects.{M, ◌>>=◌, ◌>>◌, pure, raise, call}
use azure_shell.Effects.Retry.{Retrying, retry5}

-- `validate_single_storage_account`, with `storage_accounts_list[0].name`
unfoldable pub single_storage_account : List Text → M Text
single_storage_account (name ∷ []) = pure name
single_storage_account names = raise (
    exception ErrorKind.validation_error (
      text "Sandbox Resource Group should contain only one storage account but found "
      ++ show (length names)
      ++ text " storage accounts"))

module _ (r : Retrying) (z : Azure) where
  unfoldable pub create_storage_account : Text → Text → M Text
  create_storage_account group name =
      retry5 r (call (put_storage_account group name) z.done >> pure name)

  unfoldable pub get_storage_per_resource_group : Text → M (List Text)
  get_storage_per_resource_group group =
      retry5 r (call (list_storage_accounts group) z.storage_accounts)

  unfoldable pub get_sandbox_storage_account_name : Text → M Text
  get_sandbox_storage_account_name group =
      get_storage_per_resource_group group >>= single_storage_account
