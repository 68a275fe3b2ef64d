-- ===== src/Networks.antt =====
-- `NetworkService` of package/cloudshell/cp/azure/domain/services/network_service.py: the lookup of
-- virtual networks and what deletes, and in Networks/Creation.antt what creates. Also
-- package/cloudshell/cp/azure/common/helpers/ip_allocation_helper.py.
pub mod Artifacts
pub mod Allocation
pub mod Creation
pub mod Attempts
use azure_shell.Prelude.{
  ℕ, Bool, true, false, not, Option, none, some, List, [], ◌∷◌, ◌++◌, map, keep, first,
  if◌then◌else◌, ⊤,
}
use azure_shell.Text.{Text, text, is_empty, eq, contains}
use azure_shell.Text.Edit.{lower}
use azure_shell.Errors.{ErrorKind, exception}
use azure_shell.Tags.{try_find_tag}
use azure_shell.Cloud.{
  Azure, delete_security_rule, list_nsgs, delete_nsg, delete_nic, delete_ip, list_vnets, put_subnet,
  delete_subnet,
}
use azure_shell.Cloud.{Call}
use azure_shell.Cloud.Objects.{
  SecurityRule, Nsg, Subnet, Vnet, AllocationMethod, static, dynamic, other_text,
}
use azure_shell.Effects.{M, ◌>>=◌, ◌>>◌, pure, raise, lift, call, for_each}
use azure_shell.Effects.Retry.{Retrying, retry5}
use azure_shell.SecurityGroups.{sandbox_nsg_name}

-- `is_static_allocation`: a member of the enumeration is compared by name or by itself, with the same
-- result
unfoldable pub is_static_allocation : AllocationMethod → Bool
is_static_allocation static = true
is_static_allocation dynamic = false
is_static_allocation (other_text s) = eq (lower s) (text "static")

-- `to_azure_type`
unfoldable pub to_azure_type : Text → AllocationMethod
to_azure_type s = if eq (lower s) (text "cloudshell allocation") then static else dynamic

unfoldable pub same_option : Option Text → Text → Bool
same_option none t = false
same_option (some s) t = eq s t

-- `NetworkService.get_virtual_network_by_tag`
unfoldable pub get_virtual_network_by_tag : List Vnet → Text → Text → Option Vnet
get_virtual_network_by_tag vnets key value =
    first (λ vnet. same_option (try_find_tag vnet.tags key) value) vnets

-- `rule` or `nsg` names that the artifacts of a VM have: they contain the name of the VM
unfoldable pub nsg_has : Text → Nsg → Bool
nsg_has vm_name nsg = contains vm_name nsg.name

unfoldable pub is_sandbox_nsg : Nsg → Bool
is_sandbox_nsg nsg = contains sandbox_nsg_name nsg.name

unfoldable pub rule_has : Text → SecurityRule → Bool
rule_has vm_name rule = contains vm_name rule.name

module _ (r : Retrying) (z : Azure) where
  unfoldable pub get_virtual_networks : Text → M (List Vnet)
  get_virtual_networks group = retry5 r (call (list_vnets group) z.vnets)

  unfoldable pub get_sandbox_virtual_network : Text → M (Option Vnet)
  get_sandbox_virtual_network group = do
    vnets ← get_virtual_networks group
    pure (get_virtual_network_by_tag vnets (text "network_type") (text "sandbox"))

  unfoldable pub update_subnet : Text → Text → Text → Subnet → M ⊤
  update_subnet group vnet name subnet = retry5 r (call (put_subnet group vnet name subnet) z.done)

  unfoldable pub remove_subnet : Text → Text → Text → M ⊤
  remove_subnet group vnet name = retry5 r (call (delete_subnet group vnet name) z.done)

  unfoldable pub delete_nics : Text → List Text → M ⊤
  delete_nics group names = retry5 r (for_each names λ name. call (delete_nic group name) z.done)

  unfoldable pub remove_nic : Text → Text → M ⊤
  remove_nic group name = retry5 r (call (delete_nic group name) z.done)

  unfoldable pub delete_ips : Text → List Text → M ⊤
  delete_ips group names = retry5 r (for_each names λ name. call (delete_ip group name) z.done)

  unfoldable pub remove_ip : Text → Text → M ⊤
  remove_ip group name = retry5 r (call (delete_ip group name) z.done)

  -- the body of the loop over the security groups
  unfoldable pub delete_artifacts_of : Text → Text → Nsg → M ⊤
  delete_artifacts_of group vm_name nsg =
      (if nsg_has vm_name nsg then call (delete_nsg group nsg.name) z.done else pure tt)
      >> (if is_sandbox_nsg nsg
          then (for_each (keep (rule_has vm_name) nsg.security_rules)
              λ rule. call (delete_security_rule group nsg.name rule.name) z.done)
          else pure tt)

  unfoldable pub delete_nsg_artifacts_associated_with_vm : Text → Text → M ⊤
  delete_nsg_artifacts_associated_with_vm group vm_name =
      retry5 r
        (do nsgs ← call (list_nsgs group) z.nsgs; for_each nsgs (delete_artifacts_of group vm_name))
