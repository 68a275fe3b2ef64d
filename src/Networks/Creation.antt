-- ===== src/Networks/Creation.antt =====
-- `NetworkService` of package/cloudshell/cp/azure/domain/services/network_service.py: what creates
-- addresses, NICs, subnets, networks and routes. Regions and tags are left out; a public address and a
-- security group are given by their names.
use azure_shell.Prelude.{Bool, Option, none, some, List, ◌++◌, if◌then◌else◌, ⊤}
use azure_shell.Text.{Text, text, eq}
use azure_shell.Text.Edit.{lower}
use azure_shell.Errors.{Result, ok, err, ErrorKind, exception}
use azure_shell.Cloud.{
  Azure, put_nic, put_public_ip, get_public_ip, put_subnet, put_vnet, get_subnet, put_route_table,
  get_route_table,
}
use azure_shell.Cloud.Objects.{Nic, Subnet, PublicIp, AllocationMethod, static, dynamic}
use azure_shell.Effects.{M, ◌>>=◌, ◌>>◌, pure, lift, call, for_each}
use azure_shell.Effects.Retry.{Retrying, retry5, retry_retryable}
use azure_shell.Ips.{get_next_available_ip_from_cs_pool}
use azure_shell.Networks.{is_static_allocation, to_azure_type}

-- `NetworkService._get_ip_allocation_type`; `possible` is how the list of the possible values is
-- printed, whose order is that of the keys of a dictionary
unfoldable pub get_ip_allocation_type : Text → Text → Result AllocationMethod
get_ip_allocation_type possible ip_type =
    if eq (lower ip_type) (text "static")
    then ok static
    else if eq (lower ip_type) (text "dynamic")
    then ok dynamic
    else err (
        exception ErrorKind.plain_exception (
          text "Incorrect allocation type "
          ++ ip_type
          ++ text ". Possible values are "
          ++ possible))

-- `routetable_request.routes`: name, next hop address, next hop type and address prefix
abbrev pub Route : Type 0
Route = Text × Text × Text × Text

module _ (r : Retrying) (z : Azure) where
  -- the private address of `create_nic`, where it has to be static
  unfoldable pub next_address : AllocationMethod → Text → Subnet → M (Option Text)
  next_address method reservation_id subnet =
      if is_static_allocation method
      then (get_next_available_ip_from_cs_pool z reservation_id subnet.address_prefix >>= λ ip.
          pure (some ip))
      else pure none

  -- one attempt of `create_nic`
  unfoldable pub create_nic_once :
      Text → Text → Option Text → Subnet → AllocationMethod → Text → Bool → Option Text → M Nic
  create_nic_once name group public_ip subnet method reservation_id forwarding nsg = do
    private_ip_address ← next_address method reservation_id subnet
    call
        (put_nic group name (record {
          private_ip_allocation_method = method;
          private_ip_address = private_ip_address;
          subnet = subnet;
          public_ip_address = public_ip;
          network_security_group = nsg;
          enable_ip_forwarding = forwarding;
        }))
        z.nic

  unfoldable pub create_nic :
      Text → Text → Option Text → Subnet → AllocationMethod → Text → Bool → Option Text → M Nic
  create_nic name group public_ip subnet method reservation_id forwarding nsg = retry5 r (
      retry_retryable r
        (create_nic_once name group public_ip subnet method reservation_id forwarding nsg))

  unfoldable pub create_public_ip : Text → Text → Text → Text → M Text
  create_public_ip possible group ip_name public_ip_type = retry5 r (do
    method ← lift (get_ip_allocation_type possible public_ip_type)
    call (put_public_ip group ip_name method) z.done
    pure ip_name)

  -- `if add_public_ip`
  unfoldable pub public_ip_if : Bool → Text → Text → Text → Text → M (Option Text)
  public_ip_if add_public_ip possible group ip_name public_ip_type =
      if add_public_ip
      then (create_public_ip possible group ip_name public_ip_type >>= λ ip. pure (some ip))
      else pure none

  -- `allocation` is the attribute `private_ip_allocation_method` of the cloud provider
  unfoldable pub create_network_for_vm :
      Text → Text → Text → Text → Text → Subnet → Bool → Text → Text → Bool → Option Text → M Nic
  create_network_for_vm possible group name ip_name allocation subnet add_public_ip public_ip_type
        reservation_id forwarding nsg =
      do
        public_ip_address ← public_ip_if add_public_ip possible group ip_name public_ip_type
        create_nic name group public_ip_address subnet (to_azure_type allocation) reservation_id
            forwarding nsg

  -- `wait_for_result` decides whether the result is awaited; a call and its wait are one call here
  unfoldable pub create_subnet : Text → Text → Text → Text → Option Text → M ⊤
  create_subnet group vnet name cidr nsg = retry5 r (
      call
        (put_subnet group vnet name (record {
          name = name;
          address_prefix = cidr;
          network_security_group = nsg;
          route_table = none;
          ip_configurations = none;
        }))
        z.done)

  unfoldable pub create_virtual_network : Text → Text → Text → Text → Text → M Subnet
  create_virtual_network group network subnet vnet_cidr subnet_cidr = retry5 r (
      call (put_vnet group network subnet vnet_cidr subnet_cidr) z.done
      >> call (get_subnet group network subnet) z.subnet)

  unfoldable pub get_public_ip_of : Text → Text → M PublicIp
  get_public_ip_of group ip_name = retry5 r (call (get_public_ip group ip_name) z.public_ip)

  unfoldable pub create_route_table : Text → Text → List Route → M ⊤
  create_route_table group name routes = call (put_route_table group name routes) z.done

  -- the body of the loop of `add_route_table_to_subnets`
  unfoldable pub add_route_table : Text → Text → Text → Text → M ⊤
  add_route_table group vnet route_table name = do
    subnet ← call (get_subnet group vnet name) z.subnet
    call (put_subnet group vnet name (record subnet { route_table = some route_table })) z.done

  unfoldable pub add_route_table_to_subnets : Text → Text → List Text → Text → Text → M ⊤
  add_route_table_to_subnets routes_group table subnets group vnet = do
    route_table ← call (get_route_table routes_group table) z.route_table
    for_each subnets (add_route_table group vnet route_table)
