-- ===== src/AccessKey.antt =====
-- `AccessKeyOperation` of
-- package/cloudshell/cp/azure/domain/vm_management/operations/access_key_operation.py
use azure_shell.Text.{Text}
use azure_shell.Cloud.{Azure}
use azure_shell.Effects.{M, ◌>>=◌, pure}
use azure_shell.Effects.Retry.{Retrying}
use azure_shell.Caches.{Cache}
use azure_shell.Credentials.{SshKey, get_key_pair}
use azure_shell.StorageAccounts.{get_sandbox_storage_account_name}

module _ (r : Retrying) (z : Azure) where
  -- `_cached_key_pairs` before and after
  unfoldable pub get_access_key : Cache SshKey → Text → M (Text × Cache SshKey)
  get_access_key pairs group = do
    storage_account_name ← get_sandbox_storage_account_name r z group
    (ssh_key, pairs) ← get_key_pair r z pairs group storage_account_name
    pure (ssh_key.private_key, pairs)
