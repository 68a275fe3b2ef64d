-- ===== src/Credentials.antt =====
-- package/cloudshell/cp/azure/domain/services/vm_credentials_service.py and
-- package/cloudshell/cp/azure/domain/services/key_pair.py. Cryptography and the random choices are
-- arguments. A call on a file includes what gets the file service.
pub mod Passwords
use azure_shell.Prelude.{ℕ, zero, suc, Option, none, some, List, [], ◌∷◌, ◌++◌, if◌then◌else◌, ⊤}
use azure_shell.Text.{Text, text, is_empty}
use azure_shell.Cloud.{Azure, get_file, put_file}
use azure_shell.Cloud.Objects.{OperatingSystem, windows, linux}
use azure_shell.Effects.{M, ◌>>=◌, ◌>>◌, pure, call}
use azure_shell.Effects.Retry.{Retrying, retry5}
use azure_shell.Caches.{Cache, cached}
use azure_shell.VirtualMachines.{VmCredentials}

-- `list[i] = c` where `i` is in range
unfoldable pub set_at : ℕ → ℕ → Text → Text
set_at i c [] = []
set_at zero c (x ∷ xs) = c ∷ xs
set_at (suc i) c (x ∷ xs) = x ∷ set_at i c xs

-- `_generate_password`: the lower-case letters, the two indices of the sample, an upper-case letter
-- and a digit are the random choices
unfoldable pub generate_password : Text → ℕ → ℕ → ℕ → ℕ → Text
generate_password letters i j upper digit = set_at j digit (set_at i upper letters)

-- models/ssh_key.py
pub record SshKey : Type 0 where
  pub private_key : Text
  pub public_key : Text

abbrev pub default_username : Text
unfolding text
default_username = text "adminuser"

abbrev pub username_or_default : Text → Text
username_or_default username = if is_empty username then default_username else username

-- `LINUX_PATH_TO_SSH_KEY.format(username=…)`
abbrev pub path_to_key : Text → Text
unfolding text
path_to_key username = text "/home/" ++ username ++ text "/.ssh/authorized_keys"

-- `_prepare_windows_credentials`; `generated` is what `_generate_password` would return
unfoldable pub prepare_windows_credentials : Text → Text → Text → VmCredentials
prepare_windows_credentials generated username password = record {
  admin_username = username_or_default username;
  admin_password = if is_empty password then generated else password;
  ssh_key = none;
}

module _ (r : Retrying) (z : Azure) where
  -- `StorageService.get_file` and `create_file`, in the directory and the share of the keys
  unfoldable pub get_key_file : Text → Text → Text → M Text
  get_key_file group storage file_name =
      retry5 r (call (get_file group storage (text "sshkeypair") file_name) z.file)

  unfoldable pub create_key_file : Text → Text → Text → Text → M ⊤
  create_key_file group storage file_name content =
      retry5 r (call (put_file group storage (text "sshkeypair") file_name content) z.done)

  unfoldable pub save_key_pair : Text → Text → SshKey → M ⊤
  save_key_pair group storage key_pair =
      create_key_file group storage (text "id_rsa.pub") key_pair.public_key
      >> create_key_file group storage (text "id_rsa") key_pair.private_key

  unfoldable pub read_key_pair : Text → Text → M SshKey
  read_key_pair group storage = do
    pub_key_file ← get_key_file group storage (text "id_rsa.pub")
    private_key_file ← get_key_file group storage (text "id_rsa")
    pure (record { private_key = private_key_file; public_key = pub_key_file })

  -- `_cached_key_pairs` before and after
  unfoldable pub get_key_pair : Cache SshKey → Text → Text → M (SshKey × Cache SshKey)
  get_key_pair pairs group storage = cached pairs group storage (read_key_pair group storage)

  -- `_get_ssh_key`
  unfoldable pub get_ssh_key : Cache SshKey → Text → Text → Text → M ((Text × Text) × Cache SshKey)
  get_ssh_key pairs username group storage = do
    (key_pair, pairs) ← get_key_pair pairs group storage
    pure ((path_to_key username, key_pair.public_key), pairs)

  -- `_prepare_linux_credentials`, with the construction of the credentials
  unfoldable pub prepare_linux_credentials :
      Cache SshKey → Text → Text → Text → Text → M (VmCredentials × Cache SshKey)
  prepare_linux_credentials pairs username password group storage =
      let name = username_or_default username in
      if is_empty password
      then (do
        (key, pairs) ← get_ssh_key pairs name group storage
        pure (
          record { admin_username = name; admin_password = password; ssh_key = some key },
          pairs,
        ))
      else pure (record { admin_username = name; admin_password = password; ssh_key = none }, pairs)

  unfoldable pub prepare_credentials :
      Cache SshKey
      → OperatingSystem
      → Text
      → Text
      → Text
      → Text
      → Text
      → M (VmCredentials × Cache SshKey)
  prepare_credentials pairs linux generated username password group storage =
      prepare_linux_credentials pairs username password group storage
  prepare_credentials pairs windows generated username password group storage =
      pure (prepare_windows_credentials generated username password, pairs)
