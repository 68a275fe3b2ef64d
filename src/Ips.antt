-- ===== src/Ips.antt =====
-- package/cloudshell/cp/azure/domain/services/ip_service.py: the pool of private addresses that the
-- CloudShell server keeps for a sandbox. The list of reserved addresses in a request is computed by
-- the library `netaddr` and left out.
use azure_shell.Prelude.{List, [], ◌∷◌, ◌++◌, ⊤}
use azure_shell.Text.{Text, text}
use azure_shell.Errors.{ErrorKind, exception}
use azure_shell.Cloud.{Azure, checkout_ip, release_ips}
use azure_shell.Effects.{M, ◌>>=◌, pure, raise, call}

-- `IpService._get_pool_id`
unfoldable pub get_pool_id : Text → Text
get_pool_id reservation_id = reservation_id ++ text "-private-ips"

-- `IpService.SANDBOX_LOCK_KEY`
unfoldable pub sandbox_lock_key : Text → Text
sandbox_lock_key group = group ++ text "-available-private-ip-key"

-- `result.Items[0]`
unfoldable pub first_item : List Text → M Text
first_item [] = raise (exception ErrorKind.index_error (text "list index out of range"))
first_item (ip ∷ ips) = pure ip

module _ (z : Azure) where
  unfoldable pub get_next_available_ip_from_cs_pool : Text → Text → M Text
  get_next_available_ip_from_cs_pool reservation_id subnet_cidr =
      call (checkout_ip (get_pool_id reservation_id) reservation_id subnet_cidr) z.checked_out
      >>= first_item

  unfoldable pub release : Text → List Text → M ⊤
  release reservation_id ips =
      call (release_ips (get_pool_id reservation_id) reservation_id ips) z.done
