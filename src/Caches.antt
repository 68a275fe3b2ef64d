-- ===== src/Caches.antt =====
-- The dictionaries in which package/cloudshell/cp/azure/domain/services/storage_service.py and
-- package/cloudshell/cp/azure/domain/services/key_pair.py keep what they read of a storage account.
-- Each is read first, then again under its lock, which one thread that runs alone cannot tell apart.
pub mod Transparent
use azure_shell.Prelude.{Bool, ◌&&◌, Option, none, some, List, [], ◌∷◌, if◌then◌else◌, ℕ}
use azure_shell.Text.{Text, text, eq}
use azure_shell.Errors.{ErrorKind, exception}
use azure_shell.Cloud.{Azure, list_keys, get_file, put_file}
use azure_shell.Effects.{M, ◌>>=◌, ◌>>◌, pure, raise, call}
use azure_shell.Effects.Retry.{Retrying, retry_if_connection_error, retry5}

-- by the resource group and the name of the storage account
abbrev pub Cache : Type 0 → Type 0
Cache A = List ((Text × Text) × A)

module _ {A : Type 0} where
  -- `cache.get((group, name))`
  unfoldable pub find : Cache A → Text → Text → Option A
  find [] group name = none
  find (((g, n), a) ∷ cache) group name =
      if eq g group && eq n name then some a else find cache group name

  -- where nothing is kept, `read` is called and what it returns is kept
  unfoldable pub found_or : Option A → Cache A → Text → Text → M A → M (A × Cache A)
  found_or (some a) cache group name read = pure (a, cache)
  found_or none cache group name read = read >>= λ a. pure (a, ((group, name), a) ∷ cache)

  unfoldable pub cached : Cache A → Text → Text → M A → M (A × Cache A)
  cached cache group name read = found_or (find cache group name) cache group name read

-- `account_keys.keys[0].value`
unfoldable pub first_key : List Text → M Text
first_key [] = raise (exception ErrorKind.index_error (text "list index out of range"))
first_key (key ∷ keys) = pure key

-- `FileService` or `BlockBlobService`: the name and the key of the account
abbrev pub Service : Type 0
Service = Text × Text

-- `_cached_account_keys`, `_cached_file_services` and `_cached_blob_services`
pub record StorageCaches : Type 0 where
  pub account_keys : Cache Text
  pub file_services : Cache Service
  pub blob_services : Cache Service

module _ (r : Retrying) (z : Azure) where
  -- `_get_storage_account_key`, without and with its cache; 20 attempts
  unfoldable pub read_account_key : Text → Text → M Text
  read_account_key group name = call (list_keys group name) z.account_keys >>= first_key

  unfoldable pub get_storage_account_key : Cache Text → Text → Text → M (Text × Cache Text)
  get_storage_account_key keys group name =
      r.retry (Text × Cache Text) 20 retry_if_connection_error
        (cached keys group name (read_account_key group name))

  -- what `_get_file_service` and `_get_blob_service` have in common, each with its own cache of
  -- services, and with the cache of keys
  unfoldable pub get_service :
      Cache Text
      → Cache Service
      → Text
      → Text
      → Option Service
      → M (Service × Cache Text × Cache Service)
  get_service keys services group name (some service) = pure (service, keys, services)
  get_service keys services group name none = do
    (key, keys) ← get_storage_account_key keys group name
    pure ((name, key), keys, ((group, name), (name, key)) ∷ services)

  unfoldable pub get_file_service : StorageCaches → Text → Text → M (Service × StorageCaches)
  get_file_service caches group name = do
    (service, keys, services) ←
        get_service caches.account_keys caches.file_services group name
          (find caches.file_services group name)
    pure (service, record caches { account_keys = keys; file_services = services })

  unfoldable pub get_blob_service : StorageCaches → Text → Text → M (Service × StorageCaches)
  get_blob_service caches group name = do
    (service, keys, services) ←
        get_service caches.account_keys caches.blob_services group name
          (find caches.blob_services group name)
    pure (service, record caches { account_keys = keys; blob_services = services })
