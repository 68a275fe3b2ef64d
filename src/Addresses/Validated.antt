-- ===== src/Addresses/Validated.antt =====
-- What has been validated where an address is given.
use azure_shell.Prelude.{◌≡◌, Bool-cases, inl, inr}
use azure_shell.Text.{Text, text, eq}
use azure_shell.Text.Edit.{lower}
use azure_shell.Errors.{ok}
use azure_shell.Cloud.{Azure, History}
use azure_shell.Cloud.Objects.{static}
use azure_shell.Effects.{◌>>=◌, raise}
use azure_shell.Effects.Retry.{Retrying}
use azure_shell.Networks.{to_azure_type}
use azure_shell.Addresses.{validate_allocation_method, get_available_private_ip}

-- Where an address is given, the allocation method of the cloud provider is one for which NICs are
-- created with a static address.
pub get_available_private_ip-to_azure_type :
    (r : Retrying) (z : Azure) (management_group method reservation_id subnet_cidr ip : Text)
    (h : History)
    → (get_available_private_ip r z management_group method reservation_id subnet_cidr h).0 ≡ ok ip
    → to_azure_type method ≡ static
unfolding get_available_private_ip validate_allocation_method to_azure_type ◌>>=◌ raise
get_available_private_ip-to_azure_type r z management_group method reservation_id subnet_cidr ip h
      given =
    elim (Bool-cases (eq (lower method) (text "cloudshell allocation"))) [
      | inl e ↦ rw e
      | inr e ↦ cc (rw e at given)
    ]
