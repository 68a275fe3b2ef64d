-- ===== src/Tests/Finished.antt =====
-- A deployment that creates its VM.
use azure_shell.Prelude.{◌≡◌, refl, false, none, some, List, [], ◌∷◌}
use azure_shell.Text.{text, eq}
use azure_shell.Text.Edit.{split, strip}
use azure_shell.Errors.{ok}
use azure_shell.Cloud.{Azure, History}
use azure_shell.Cloud.Objects.{Nic, Vm, windows}
use azure_shell.Effects.{M, ◌>>=◌, pure, lift, call, attempt, handle, for_each}
use azure_shell.Effects.Emits.{Grows}
use azure_shell.Effects.Retry.{retry5}
use azure_shell.Cancellation.{check_cancelled}
use azure_shell.Credentials.{prepare_windows_credentials, prepare_credentials}
use azure_shell.Deployment.{DeployData}
use azure_shell.Deployment.Failures.{deployed}
use azure_shell.Deployment.Flow.{try_block, with_objects, create_machine, run_script}
use azure_shell.Deployment.Late.{Looks, deploy_keeps}
use azure_shell.Deployment.Steps.{
  create_vm_common_objects, create_groups, create_vm_nsg, with_groups, with_credentials,
  create_nics, create_vm_custom_script_extension,
}
use azure_shell.Images.{custom_image, os_type}
use azure_shell.Networks.{
  get_virtual_networks, get_virtual_network_by_tag, get_sandbox_virtual_network, same_option,
}
use azure_shell.Ports.RulesAttribute.{parse_port_group_attribute}
use azure_shell.Priorities.{rule_priority_generator, next, next_from, sorted}
use azure_shell.Sandbox.{create_one, first_prefix}
use azure_shell.SecurityGroups.{
  create_network_security_group, create_network_security_group_rules, create_each,
  create_network_security_group_rule,
}
use azure_shell.SecurityGroups.Rules.{prepare_security_group_rule}
use azure_shell.Tags.{try_find_tag, lookup}
use azure_shell.VirtualMachines.{VmCredentials}
use azure_shell.VmRules.{
  vnet_cidr, open_inbound_ports, open_management, block_sandbox, get_management_vnet_cidr,
  create_vm_network_security_group,
}
use azure_shell.Waiter.{check_if_cancelled}
use azure_shell.Tests.Data.{retrying, group, vnet, vm, cloud}
use azure_shell.Tests.Deployments.{around, model, provider, job}

-- a cloud with a management network, and a deployment of a VM for Windows without NICs
abbrev pub managed : Azure
managed = record cloud {
  vnets =
      λ h. ok (vnet ∷ record vnet { tags = some ((text "network_type", text "mgmt") ∷ []) } ∷ []);
  security_rules = λ h. ok [];
}

abbrev lone : DeployData
lone = record job { image_model = custom_image (text "image") windows; nic_requests = [] }

abbrev given_vm : DeployData → List Nic → VmCredentials → M Vm
given_vm d nics credentials = pure vm

abbrev administrator : VmCredentials
administrator = prepare_windows_credentials group [] group

abbrev ready : History
ready = (try_block retrying managed around (λ t. false) model provider given_vm [] lone []).1

readied :
    try_block retrying managed around (λ t. false) model provider given_vm [] lone []
    ≡ (ok ([], ok (vm, administrator, none)), ready)
unfolding try_block create_vm_common_objects create_groups create_vm_nsg
    create_vm_network_security_group get_management_vnet_cidr get_virtual_networks retry5 call ◌>>=◌
    attempt pure lift with_groups with_objects with_credentials create_nics
    get_virtual_network_by_tag get_sandbox_virtual_network vnet_cidr open_inbound_ports
    open_management create_network_security_group create_one block_sandbox check_cancelled
    prepare_credentials create_machine run_script create_vm_custom_script_extension handle for_each
    text eq same_option try_find_tag first_prefix create_network_security_group_rules create_each
    create_network_security_group_rule rule_priority_generator next next_from sorted
    prepare_security_group_rule check_if_cancelled parse_port_group_attribute lookup split strip
    os_type
readied = refl

deploy_keeps_example :
    Grows
      (Looks group)
      ready
      (deployed retrying managed around (λ t. false) model provider given_vm [] lone []).1
deploy_keeps_example =
    deploy_keeps retrying managed around (λ t. false) model provider given_vm lone [] [] ready []
      (vm, administrator, none) refl readied
