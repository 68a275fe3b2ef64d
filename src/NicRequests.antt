-- ===== src/NicRequests.antt =====
-- `_get_nic_requests` of
-- package/cloudshell/cp/azure/domain/vm_management/operations/deploy_operation.py: the subnets to
-- which a new VM is connected.
pub mod Connected
use azure_shell.Prelude.{
  ℕ, suc, Bool, true, Option, none, some, List, [], ◌∷◌, ◌++◌, map, first, leb, if◌then◌else◌,
}
use azure_shell.Text.{Text, text, eq, contains}
use azure_shell.Text.Decimal.{show}
use azure_shell.Errors.{ErrorKind, exception}
use azure_shell.Cloud.{Azure}
use azure_shell.Cloud.Objects.{Subnet, Vnet}
use azure_shell.Effects.{M, ◌>>=◌, pure, raise}
use azure_shell.Effects.Retry.{Retrying}
use azure_shell.Networks.{get_sandbox_virtual_network}

pub record NicRequest : Type 0 where
  pub interface_name : Text
  pub subnet : Subnet
  pub is_public : Bool

-- `ConnectSubnet`, by its `connection_params`
pub record ConnectSubnet : Type 0 where
  pub device_index : Option ℕ
  pub subnet_id : Text
  pub is_public_subnet : Bool

-- `"{}-{}".format(vm_name, i)`
abbrev pub interface_name : Text → ℕ → Text
interface_name vm_name i = vm_name ++ b'-' ∷ show i

-- `None` comes before every number
abbrev pub sort_key : Option ℕ → ℕ
sort_key none = 0
sort_key (some i) = suc i

-- `list.sort(key=…)`, which keeps the order of equal keys
unfoldable pub insert_by_index : ConnectSubnet → List ConnectSubnet → List ConnectSubnet
insert_by_index c [] = c ∷ []
insert_by_index c (d ∷ ds) =
    if leb (sort_key c.device_index) (sort_key d.device_index)
    then c ∷ d ∷ ds
    else d ∷ insert_by_index c ds

unfoldable pub sort_by_index : List ConnectSubnet → List ConnectSubnet
sort_by_index [] = []
sort_by_index (c ∷ cs) = insert_by_index c (sort_by_index cs)

-- `next((NicRequest(…) for s in subnets if group in s.name), None)`
unfoldable pub default_request : Text → Text → List Subnet → Option NicRequest
default_request vm_name group [] = none
default_request vm_name group (s ∷ subnets) =
    if contains group s.name
    then some (record { interface_name = interface_name vm_name 0; subnet = s; is_public = true })
    else default_request vm_name group subnets

-- `if subnet: nic_requests.append(NicRequest(…))`
unfoldable pub add_request :
    Text → ℕ → ConnectSubnet → Option Subnet → List NicRequest → List NicRequest
add_request vm_name i c none requests = requests
add_request vm_name i c (some subnet) requests =
    record {
      interface_name = interface_name vm_name i;
      subnet = subnet;
      is_public = c.is_public_subnet;
    }
    ∷ requests

-- the loop over the connections from number `i` on
unfoldable pub requests_from : Text → List Subnet → ℕ → List ConnectSubnet → List NicRequest
requests_from vm_name subnets i [] = []
requests_from vm_name subnets i (c ∷ cs) =
    add_request vm_name i c (first (λ subnet. eq subnet.name c.subnet_id) subnets)
      (requests_from vm_name subnets (suc i) cs)

-- the requests, by mode: without connections the sandbox has one subnet; a request may be `None`
unfoldable pub nic_requests :
    Text → Text → List ConnectSubnet → List Subnet → List (Option NicRequest)
nic_requests group vm_name [] subnets = default_request vm_name group subnets ∷ []
nic_requests group vm_name (c ∷ cs) subnets =
    map (λ request. some request) (requests_from vm_name subnets 0 (sort_by_index (c ∷ cs)))

-- `sandbox_virtual_network.subnets`
unfoldable pub subnets_of : Option Vnet → M (List Subnet)
subnets_of none =
    raise
      (exception ErrorKind.attribute_error (text "'NoneType' object has no attribute 'subnets'"))
subnets_of (some vnet) = pure vnet.subnets

unfoldable pub get_nic_requests :
    Retrying → Azure → Text → Text → Text → List ConnectSubnet → M (List (Option NicRequest))
get_nic_requests r z management_group group vm_name connections = do
  sandbox_virtual_network ← get_sandbox_virtual_network r z management_group
  subnets ← subnets_of sandbox_virtual_network
  pure (nic_requests group vm_name connections subnets)
