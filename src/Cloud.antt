-- ===== src/Cloud.antt =====
-- What the shell sees of Azure and of the CloudShell server: the objects that it reads and writes,
-- with the fields that it uses; the calls that it makes; and the answers, which are a parameter.
-- A call that starts an operation and the `result()` or `wait()` that always follows it are one call.
pub mod Objects
use azure_shell.Prelude.{Bool, Option, List, ⊤}
use azure_shell.Text.{Text}
use azure_shell.Errors.{Result}
use azure_shell.Cloud.Objects.{
  SecurityRule, Nsg, Nic, Vm, Subnet, Vnet, PublicIp, AllocationMethod, NicRequestBody, VmBody,
  Image, MarketplaceImage, ExtensionBody,
}

-- A resource group comes first, then what contains the resource, then its name.
pub data Call : Type 0 where
  list_security_rules : Text → Text → Call
  put_security_rule : Text → Text → SecurityRule → Call
  delete_security_rule : Text → Text → Text → Call
  list_nsgs : Text → Call
  get_nsg : Text → Text → Call
  put_nsg : Text → Text → Call
  delete_nsg : Text → Text → Call
  get_nic : Text → Text → Call
  delete_nic : Text → Text → Call
  delete_ip : Text → Text → Call
  get_vm : Text → Text → Call
  delete_vm : Text → Text → Call
  delete_managed_disk : Text → Text → Call
  delete_blob : Text → Text → Text → Text → Call
  delete_resource_group : Text → Call
  list_vnets : Text → Call
  put_subnet : Text → Text → Text → Subnet → Call
  delete_subnet : Text → Text → Text → Call
  get_subnet : Text → Text → Text → Call
  checkout_ip : Text → Text → Text → Call
  release_ips : Text → Text → List Text → Call
  remove_lock : Text → Call
  put_nic : Text → Text → NicRequestBody → Call
  put_public_ip : Text → Text → AllocationMethod → Call
  get_public_ip : Text → Text → Call
  put_vm : Text → Text → VmBody → Call
  start_vm deallocate_vm : Text → Text → Call
  get_image : Text → Text → Call
  list_marketplace_images : Text → Text → Text → Call
  get_marketplace_image : Text → Text → Text → Text → Call
  put_extension : Text → Text → ExtensionBody → Call
  check_url : Text → Call
  list_storage_accounts : Text → Call
  put_storage_account : Text → Text → Call
  list_keys : Text → Text → Call
  get_blob abort_copy blob_exists : Text → Text → Call
  create_container : Text → Call
  copy_blob : Text → Text → Text → Call
  get_file : Text → Text → Text → Text → Call
  put_file : Text → Text → Text → Text → Text → Call
  put_resource_group : Text → Call
  get_resource_group register_provider : Text → Call
  list_regions : Call
  list_vm_sizes : Text → Call
  put_vnet : Text → Text → Text → Text → Text → Call
  put_route_table : Text → Text → List (Text × Text × Text × Text) → Call
  get_route_table : Text → Text → Call
  write_message : Text → Text → Call
  set_attribute : Text → Text → Option Text → Call
  update_address : Text → Text → Call
  set_live_status : Text → Text → Text → Call

-- The calls so far, the latest first. What a call is answered may depend on all of them.
abbrev pub History : Type 0
History = List Call

pub record Azure : Type 0 where
  pub security_rules : History → Result (List SecurityRule)
  pub nsgs : History → Result (List Nsg)
  pub nsg : History → Result Nsg
  pub nic : History → Result Nic
  pub vm : History → Result Vm
  pub vnets : History → Result (List Vnet)
  pub checked_out : History → Result (List Text)
  pub subnet : History → Result Subnet
  pub public_ip : History → Result PublicIp
  pub image : History → Result Image
  -- the versions of an image, the latest last
  pub image_versions : History → Result (List Text)
  pub marketplace_image : History → Result MarketplaceImage
  pub storage_accounts : History → Result (List Text)
  pub account_keys : History → Result (List Text)
  -- the status of the copy of a blob
  pub copy_status : History → Result Text
  pub blob_is_there : History → Result Bool
  pub file : History → Result Text
  pub route_table : History → Result Text
  pub url_is_valid : History → Result Bool
  -- the names of the regions, the location of a resource group, and the names of the sizes of VMs
  pub regions : History → Result (List Text)
  pub location : History → Result Text
  pub vm_sizes : History → Result (List Text)
  -- `cancellation_context.is_cancelled`, when it is read after these calls
  pub is_cancelled : History → Bool
  -- of a call whose answer is not used
  pub done : History → Result ⊤
