-- ===== src/Names.antt =====
-- package/cloudshell/cp/azure/domain/services/name_provider.py, and the storage account name of
-- package/cloudshell/cp/azure/domain/vm_management/operations/PrepareSandboxInfraOperation.py.
-- `str(uuid.uuid4())[:8]` is an argument of what generates names.
pub mod Generated
pub mod Subnet
use azure_shell.Prelude.{
  ℕ, ◌+◌, ◌-◌, Bool, ◌&&◌, ◌||◌, Option, none, some, List, [], ◌∷◌, ◌++◌, leb, ltb, ◌==◌,
  if◌then◌else◌, length, take, keep,
}
use azure_shell.Text.{Text, text, is_empty}
use azure_shell.Text.Edit.{replace, lower}

unfoldable pub is_alnum : ℕ → Bool
is_alnum c = (leb b'a' c && leb c b'z') || (leb b'A' c && leb c b'Z') || (leb b'0' c && leb c b'9')

unfoldable pub is_name_char : ℕ → Bool
unfolding is_alnum
is_name_char c = is_alnum c || c == b'-'

unfoldable pub drop_dashes : Text → Text
drop_dashes [] = []
drop_dashes (c ∷ cs) = if c == b'-' then drop_dashes cs else c ∷ cs

-- `re.sub("[^a-zA-Z0-9-]|^-+", "", name)`: `^` matches at the first character of `name` only.
unfoldable pub remove_special : Text → Text
unfolding drop_dashes
remove_special name = keep is_name_char (drop_dashes name)

-- `if s.endswith("-"): s = s[:-1]`
unfoldable pub drop_last_dash : Text → Text
drop_last_dash [] = []
drop_last_dash (c ∷ []) = if c == b'-' then [] else c ∷ []
drop_last_dash (c ∷ d ∷ ds) = c ∷ drop_last_dash (d ∷ ds)

-- the postfix in use: `not postfix` holds of `None` and of the empty text
unfoldable pub postfix_or : Option Text → Text → Text
postfix_or none unique = unique
postfix_or (some p) unique = if is_empty p then unique else p

-- `postfix_len`: a unique id is taken to have 8 characters
unfoldable pub postfix_len : Option Text → ℕ
postfix_len none = 9
postfix_len (some p) = if is_empty p then 9 else length p + 1

-- The name cut to `limit` characters. Where Python's `max_length - postfix_len` is negative,
-- `name[:-delta]` is empty, as it is for a limit of 0.
unfoldable pub truncate : ℕ → Text → Text
truncate limit name = if ltb limit (length name) then take limit name else name

unfoldable pub generate_name : Text → Text → Option Text → ℕ → Text
generate_name unique name postfix max_length =
    drop_last_dash (truncate (max_length - postfix_len postfix) (remove_special name))
    ++ b'-' ∷ postfix_or postfix unique

-- `None` for an empty name; `lower()` and a dash for each space otherwise
unfoldable pub normalize_name : Text → Option Text
normalize_name name = if is_empty name then none else some (replace b' ' (b'-' ∷ []) (lower name))

unfoldable pub format_subnet_name : Text → Text → Text
format_subnet_name resource_group_name subnet_cidr =
    replace b'/' (b'-' ∷ []) (replace b' ' [] (resource_group_name ++ b'_' ∷ subnet_cidr))

-- `PrepareSandboxInfraOperation._prepare_storage_account_name`
unfoldable pub prepare_storage_account_name : Text → Text → Text
prepare_storage_account_name unique reservation_id =
    replace b'-' [] (generate_name unique (replace b'-' [] reservation_id) (some (text "cs")) 24)
