-- ===== src/Tests/Failing.antt =====
-- A deployment that fails with a NIC.
use azure_shell.Prelude.{◌≡◌, refl, inr, none, some, List, [], ◌∷◌}
use azure_shell.Text.{text, eq}
use azure_shell.Errors.{ok}
use azure_shell.Cloud.{History}
use azure_shell.Cloud.Objects.{Nic, Vm, windows}
use azure_shell.Effects.{M, raise, ◌>>=◌, pure, lift, call}
use azure_shell.Effects.Retry.{retry5}
use azure_shell.Deployment.{DeployData, CloudProviderModel}
use azure_shell.Deployment.Steps.{create_groups}
use azure_shell.Images.{custom_image}
use azure_shell.Priorities.{rule_priority_generator, sorted}
use azure_shell.SecurityGroups.{create_network_security_group_rules, create_each}
use azure_shell.VirtualMachines.{VmCredentials}
use azure_shell.Deployment.Nics.{make, open_ports, loop, Runs, IsRun, create_nics_lem}
use azure_shell.Deployment.Steps.{create_requested_nic, open_to}
use azure_shell.Networks.{is_static_allocation, to_azure_type}
use azure_shell.Networks.Creation.{
  create_network_for_vm, public_ip_if, create_public_ip, get_ip_allocation_type, create_nic,
  create_nic_once, next_address,
}
use azure_shell.SecurityGroups.{first_configuration, first_of}
use azure_shell.Text.Edit.{lower}
use azure_shell.Effects.Retry.{retry_retryable}
use azure_shell.Deployment.Steps.{named_rule, inbound_rule_name}
use azure_shell.Deployment.Collisions.{IsFor, inbound_rules_collide}
use azure_shell.SecurityGroups.{get_subnets_nsg_name}
use azure_shell.Prelude.{All}
use azure_shell.Tests.Data.{retrying, group, vm_name, nsg, nic, forbidden}
use azure_shell.Tests.Deployments.{around, model, provider, job, request, rule}
use azure_shell.Tests.Finished.{managed}

-- a deployment of a VM for Windows with one NIC, in a group of static addresses
abbrev static_provider : CloudProviderModel
static_provider = record provider { private_ip_allocation_method = text "static" }

abbrev with_nic : DeployData
with_nic = record job { image_model = custom_image (text "image") windows }

-- the VM is refused
abbrev refused : DeployData → List Nic → VmCredentials → M Vm
refused d nics credentials = raise forbidden

abbrev with_groups_made : History
with_groups_made = (create_groups retrying managed around model static_provider with_nic []).1

abbrev with_nic_made : History
with_nic_made =
    (make retrying managed around model static_provider with_nic nsg [] (some request)
      with_groups_made).1

abbrev with_ports_open : History
with_ports_open =
    (open_ports retrying managed around model static_provider with_nic nsg [] (text "10.0.0.4")
      with_nic_made).1

nic_is_made :
    make retrying managed around model static_provider with_nic nsg []
      (some request)
      with_groups_made
    ≡ (ok (nic, text "10.0.0.4"), with_nic_made)
unfolding create_requested_nic create_network_for_vm public_ip_if create_public_ip
    get_ip_allocation_type lower create_nic retry_retryable create_nic_once next_address
    is_static_allocation to_azure_type first_configuration first_of retry5 call ◌>>=◌ pure lift text
    eq
nic_is_made = refl

ports_are_open :
    open_ports retrying managed around model static_provider with_nic nsg []
      (text "10.0.0.4")
      with_nic_made
    ≡ (ok tt, with_ports_open)
unfolding open_to create_network_security_group_rules create_each retry5 call ◌>>=◌ pure
    rule_priority_generator sorted
ports_are_open = refl

abbrev nic_run :
    Runs retrying managed around model static_provider with_nic nsg []
      (some request ∷ [])
      with_groups_made
      ((nic, text "10.0.0.4") ∷ [])
      none
      with_ports_open
nic_run = (with_nic_made, nic_is_made, inr (with_ports_open, ports_are_open, (refl, refl)))

create_nics_example :
    IsRun retrying managed around model static_provider with_nic nsg [] [] []
      (some request ∷ [])
      with_groups_made
      (loop retrying managed around model static_provider with_nic nsg [] [] []
        (some request ∷ [])
        with_groups_made)
create_nics_example =
    create_nics_lem retrying managed around model static_provider with_nic nsg [] [] []
      (some request ∷ []) with_groups_made

inbound_rules_collide_example :
    (k : History) × (l : History) × (open_to retrying managed around model provider job nsg
        (named_rule vm_name rule ∷ [])
        (text "10.0.0.4")
        []
      ≡ (ok tt, k))
    × (open_to retrying managed around model provider job nsg
          (named_rule vm_name rule ∷ [])
          (text "10.0.0.5")
          k
        ≡ (ok tt, l))
    × All
        (λ p.
          IsFor group
            (get_subnets_nsg_name group)
            (text "10.0.0.4")
            k
            (inbound_rule_name vm_name p))
        (rule ∷ [])
    × All
        (λ p.
          IsFor group
            (get_subnets_nsg_name group)
            (text "10.0.0.5")
            l
            (inbound_rule_name vm_name p))
        (rule ∷ [])
inbound_rules_collide_example =
    inbound_rules_collide retrying managed around model provider job nsg (rule ∷ [])
      (text "10.0.0.4") (text "10.0.0.5") [] (λ k. []) (record { accepted = λ rule h. refl })
      (λ k. refl)
