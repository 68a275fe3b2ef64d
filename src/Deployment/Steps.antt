-- ===== src/Deployment/Steps.antt =====
-- What a deployment creates: the NICs with the rules that open ports to them, the credentials, the VM
-- and its script.
use azure_shell.Prelude.{
  Bool, true, false, ◌&&◌, ◌/◌, ◌%◌, Option, none, some, List, [], ◌∷◌, ◌++◌, map, if◌then◌else◌, ⊤,
}
use azure_shell.Text.{Text, text, is_empty}
use azure_shell.Text.Decimal.{show}
use azure_shell.Text.Edit.{replace}
use azure_shell.Errors.{Error, Result, ok, err, ErrorKind, exception}
use azure_shell.Models.{RuleData}
use azure_shell.Cloud.{Azure}
use azure_shell.Cloud.Objects.{Nic, Vm, Nsg, Plan}
use azure_shell.Effects.{M, ◌>>=◌, ◌>>◌, pure, raise, lift, handle, attempt}
use azure_shell.Effects.Retry.{Retrying}
use azure_shell.Cancellation.{check_cancelled}
use azure_shell.Caches.{Cache}
use azure_shell.Credentials.{SshKey, prepare_credentials}
use azure_shell.Images.{os_type}
use azure_shell.NicRequests.{NicRequest}
use azure_shell.Networks.Creation.{create_network_for_vm}
use azure_shell.Ports.RulesAttribute
use azure_shell.Rollback.{get_ip_from_interface_name}
use azure_shell.SecurityGroups.{
  get_subnets_nsg_name, first_configuration, create_network_security_group_rules,
}
use azure_shell.SecurityGroups.Rules.{Constants, port_range, of_rule_data}
use azure_shell.Scripts.{create_script_extension}
use azure_shell.VirtualMachines.{
  VmCredentials, create_vm_from_custom_image, create_vm_from_marketplace,
}
use azure_shell.VmDetails.{ImageIds}
use azure_shell.VmRules.{create_vm_network_security_group}
use azure_shell.Deployment.{DeploymentModel, CloudProviderModel, DeployData}

-- `rule.name = "{vm_name}_inbound_ports:{port_range}:{protocol}".format(…)`
unfoldable pub inbound_rule_name : Text → RuleData → Text
inbound_rule_name vm_name rule =
    replace b' ' [] vm_name ++ text "_inbound_ports:" ++ port_range rule ++ b':' ∷ rule.protocol

unfoldable pub named_rule : Text → RuleData → RuleData
named_rule vm_name rule = record rule { name = some (inbound_rule_name vm_name rule) }

-- what the library and the random choices give: the names of Azure, how the allocation types are
-- printed, the password that would be generated, and what `re` finds in the id of an image
pub record Surroundings : Type 0 where
  pub constants : Constants
  pub allocation_types : Text
  pub generated_password : Text
  pub image_ids : ImageIds
  -- a `CloudError` with a text behind its `error.message`
  pub append_message : Error → Text → Error

-- the addresses of `data.all_private_ip_addresses` so far stay known when an exception is raised
abbrev pub Tracked : Type 0 → Type 0
Tracked A = List Text × Result A

-- `re.search('storage account type .+ is not supported for vm size', exc.message.lower())`, which the
-- library `re` decides; `append_message` is what `error.message += …` makes of a `CloudError` of Azure
unfoldable pub expand_cloud_error_message :
    (Error → Text → Error) → (Text → Bool) → DeploymentModel → Error → Error
expand_cloud_error_message append_message is_disk_mismatch d e =
    if is_disk_mismatch e.message
    then append_message e (
        text "\nDisk Type attribute value "
        ++ d.disk_type
        ++ text " doesn't support the selected VM size.")
    else e

-- `isinstance(e, QualiTimeoutException)`, and the same of `QualiScriptExecutionTimeoutException`
unfoldable pub is_quali_timeout : ErrorKind → Bool
is_quali_timeout ErrorKind.quali_timeout = true
is_quali_timeout _ = false

unfoldable pub is_script_timeout : ErrorKind → Bool
is_script_timeout ErrorKind.script_execution_timeout = true
is_script_timeout _ = false

module _ (r : Retrying) (z : Azure) (around : Surroundings) (d : DeploymentModel)
    (provider : CloudProviderModel) (job : DeployData) where
  -- `NSG_…` of the VM
  unfoldable pub create_vm_nsg : M Nsg
  create_vm_nsg =
      create_vm_network_security_group r z around.constants provider.management_group_name
        job.group_name job.vm_name d.inbound_ports provider.additional_mgmt_networks
        d.allow_all_sandbox_traffic

  module _ (vm_nsg : Nsg) (inbound_rules : List RuleData) where
    -- the first half of the body of the loop over the requests: the NIC and its private address
    unfoldable pub create_requested_nic : Option NicRequest → M (Nic × Text)
    create_requested_nic none = raise (
        exception ErrorKind.attribute_error
          (text "'NoneType' object has no attribute 'interface_name'"))
    create_requested_nic (some request) = do
      nic ←
          create_network_for_vm r z around.allocation_types job.group_name request.interface_name
            (get_ip_from_interface_name request.interface_name)
            provider.private_ip_allocation_method request.subnet
            (d.add_public_ip && request.is_public) d.public_ip_type job.group_name
            job.enable_ip_forwarding (some vm_nsg.name)
      configuration ← first_configuration nic
      pure (nic, configuration.private_ip_address)

    -- the second half: the inbound ports are opened to the address in the group of the subnets
    unfoldable pub open_to : Text → M ⊤
    open_to private_ip_address =
        create_network_security_group_rules r z around.constants job.group_name
          (get_subnets_nsg_name job.group_name) (map of_rule_data inbound_rules) private_ip_address
          (some 1000) around.constants.internet

    -- how the loop goes on after its two halves; what has been created stays known
    abbrev pub after_rules : List Text → Result ⊤ → M (Tracked (List Nic)) → M (Tracked (List Nic))
    after_rules ips (ok _) rest = rest
    after_rules ips (err e) rest = pure (ips, err e)

    abbrev pub after_nic :
        List Text
        → Result (Nic × Text)
        → (Nic → Text → M (Tracked (List Nic)))
        → M (Tracked (List Nic))
    after_nic ips (ok (nic, ip)) next =
        attempt (open_to ip) >>= λ opened. after_rules (ips ++ ip ∷ []) opened (next nic ip)
    after_nic ips (err e) next = pure (ips, err e)

    -- the loop, with the addresses and the NICs so far
    unfoldable pub create_nics :
        List Text → List Nic → List (Option NicRequest) → M (Tracked (List Nic))
    create_nics ips nics [] = pure (ips, ok nics)
    create_nics ips nics (request ∷ requests) =
        attempt (create_requested_nic request) >>= λ created.
        after_nic ips created (λ nic ip. create_nics (ips ++ ip ∷ []) (nics ++ nic ∷ []) requests)

  -- the security group of the VM and the named rules for its inbound ports
  unfoldable pub create_groups : M (Nsg × List RuleData)
  create_groups = do
    vm_nsg ← create_vm_nsg
    rules ← lift (RulesAttribute.parse_port_group_attribute d.inbound_ports)
    pure (vm_nsg, map (named_rule job.vm_name) rules)

  module _ (pairs : Cache SshKey) where
    -- the credentials, once the NICs are there
    unfoldable pub with_credentials :
        List Text → Result (List Nic) → M (Tracked (List Nic × VmCredentials))
    with_credentials ips (err e) = pure (ips, err e)
    with_credentials ips (ok nics) =
        attempt (do
          (credentials, kept) ←
              prepare_credentials r z pairs (os_type job.image_model) around.generated_password
                d.username d.password job.group_name job.storage_account_name
          check_cancelled z
          pure (nics, credentials))
        >>= λ prepared. pure (ips, prepared)

    unfoldable pub with_groups :
        Result (Nsg × List RuleData) → M (Tracked (List Nic × VmCredentials))
    with_groups (err e) = pure ([], err e)
    with_groups (ok (vm_nsg, rules)) =
        create_nics vm_nsg rules [] [] job.nic_requests >>= λ created.
        with_credentials created.0 created.1

    -- `_create_vm_common_objects`
    unfoldable pub create_vm_common_objects : M (Tracked (List Nic × VmCredentials))
    create_vm_common_objects = attempt create_groups >>= with_groups

  -- `_create_vm_custom_image_action`
  unfoldable pub create_vm_custom_image_action : Text → Text → List Nic → VmCredentials → M Vm
  create_vm_custom_image_action image_name image_resource_group nics credentials =
      check_cancelled z
      >> create_vm_from_custom_image r z credentials job.computer_name job.group_name nics
          job.vm_name job.vm_size d.disk_type d.disk_size image_name image_resource_group

  -- `_create_vm_marketplace_action`, with the purchase plan of the image
  unfoldable pub create_vm_marketplace_action :
      Text → Text → Text → Text → Option Plan → List Nic → VmCredentials → M Vm
  create_vm_marketplace_action publisher offer sku version plan nics credentials =
      create_vm_from_marketplace r z credentials job.computer_name job.group_name nics job.vm_name
        job.vm_size d.disk_type d.disk_size offer publisher sku version plan

  -- `except QualiTimeoutException`
  unfoldable pub expand_timeout : Error → M ⊤
  expand_timeout e =
      if is_quali_timeout e.kind
      then raise (
          exception ErrorKind.script_execution_timeout (
            text "App "
            ++ d.app_name
            ++ text " was partially deployed - Custom script extension reached maximum timeout of "
            ++ show (d.extension_script_timeout / 60)
            ++ text " minutes and "
            ++ show (d.extension_script_timeout % 60)
            ++ text " seconds"))
      else raise e

  -- `_create_vm_custom_script_extension`
  unfoldable pub create_vm_custom_script_extension : M ⊤
  create_vm_custom_script_extension = if is_empty d.extension_script_file then pure tt else (do
    check_cancelled z
    handle
        (create_script_extension r z job.group_name job.vm_name (os_type job.image_model)
            d.extension_script_file d.extension_script_configurations
          >> pure tt)
        expand_timeout
    check_cancelled z)
