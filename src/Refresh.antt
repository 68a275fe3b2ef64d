-- ===== src/Refresh.antt =====
-- package/cloudshell/cp/azure/domain/vm_management/operations/refresh_ip_operation.py: the addresses of
-- a resource on the CloudShell server are brought up to date with those of its VM.
pub mod Refined
use azure_shell.Prelude.{
  Bool, not, true, false, Option, none, some, List, [], ◌∷◌, first, if◌then◌else◌, ⊤,
}
use azure_shell.Text.{Text, text, eq}
use azure_shell.Errors.{ErrorKind, exception}
use azure_shell.Cloud.{Azure, get_nic, get_public_ip, set_attribute, update_address}
use azure_shell.Cloud.Objects.{Vm, NicReference}
use azure_shell.Details.{get_name_from_resource_id}
use azure_shell.Effects.{M, ◌>>=◌, ◌>>◌, pure, raise, call}
use azure_shell.Effects.Retry.{Retrying}
use azure_shell.SecurityGroups.{first_configuration}
use azure_shell.VirtualMachines.{get_active_vm}

-- the first reference that is primary, or else the first one
unfoldable pub first_reference : List NicReference → M NicReference
first_reference [] = raise (exception ErrorKind.index_error (text "list index out of range"))
first_reference (reference ∷ references) = pure reference

unfoldable pub primary_or_first : Option NicReference → List NicReference → M NicReference
primary_or_first none references = first_reference references
primary_or_first (some reference) references = pure reference

-- equality of texts or `None`
unfoldable pub same : Option Text → Option Text → Bool
same none none = true
same (some a) (some b) = eq a b
same _ _ = false

module _ (r : Retrying) (z : Azure) (group vm_name : Text) where
  -- the public address on Azure: empty without a reference, and perhaps `None` with one
  unfoldable pub public_ip_on_azure : Option Text → M (Option Text)
  public_ip_on_azure none = pure (some (text ""))
  public_ip_on_azure (some id) =
      call (get_public_ip group (get_name_from_resource_id id)) z.public_ip >>= λ public_ip.
      pure public_ip.ip_address

  -- the private and the public address of the VM
  unfoldable pub addresses_on_azure : M (Text × Option Text)
  addresses_on_azure = do
    vm ← get_active_vm r z group vm_name
    reference ←
        primary_or_first (first (λ x. x.primary) vm.network_interfaces) vm.network_interfaces
    nic ← call (get_nic group (get_name_from_resource_id reference.id)) z.nic
    configuration ← first_configuration nic
    public_ip ← public_ip_on_azure configuration.public_ip_address
    pure (configuration.private_ip_address, public_ip)

  module _ (full_name public_ip_key : Text) where
    -- the two updates, each only where the address differs
    unfoldable pub update_resource : Text → Option Text → Text × Option Text → M ⊤
    update_resource private_ip public_ip (private_on_azure, public_on_azure) =
        (if same public_on_azure public_ip
          then pure tt
          else call (set_attribute full_name public_ip_key public_on_azure) z.done)
        >> (if eq private_on_azure private_ip
            then pure tt
            else call (update_address full_name private_on_azure) z.done)

    -- `refresh_ip`, with the addresses that the resource has
    unfoldable pub refresh_ip : Text → Option Text → M ⊤
    refresh_ip private_ip public_ip = addresses_on_azure >>= update_resource private_ip public_ip
