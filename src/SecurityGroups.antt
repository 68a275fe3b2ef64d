-- ===== src/SecurityGroups.antt =====
-- `SecurityGroupService` of package/cloudshell/cp/azure/domain/services/security_group.py, but for the
-- priority generator, which is in `Priorities`. The locks that its methods hold are in `Locks`; one
-- method at a time runs here.
pub mod Rules
pub mod Created
pub mod Deleted
use azure_shell.Prelude.{
  ℕ, Bool, true, false, not, Option, none, some, List, [], ◌∷◌, ◌++◌, map, keep, if◌then◌else◌, ⊤,
}
use azure_shell.Text.{Text, text, is_empty, eq, contains}
use azure_shell.Errors.{ErrorKind, exception}
use azure_shell.Cloud.{
  Azure, list_security_rules, put_security_rule, delete_security_rule, list_nsgs, get_nsg, put_nsg,
  get_nic,
}
use azure_shell.Cloud.Objects.{SecurityRule, Nsg, Nic, IpConfiguration}
use azure_shell.Effects.{M, ◌>>=◌, ◌>>◌, pure, raise, lift, call, for_each}
use azure_shell.Effects.Retry.{Retrying, retry5}
use azure_shell.Priorities.{Generator, rule_priority_generator, next}
use azure_shell.SecurityGroups.Rules.{Constants, InboundRule, prepare_security_group_rule}

abbrev pub sandbox_nsg_name : Text
sandbox_nsg_name = text "NSG_sandbox_all_subnets_"

-- `SecurityGroupService.get_subnets_nsg_name`
unfoldable pub get_subnets_nsg_name : Text → Text
get_subnets_nsg_name reservation_id = sandbox_nsg_name ++ reservation_id

-- `x[0]` of the IP configurations of a network interface
unfoldable pub first_of : List IpConfiguration → M IpConfiguration
first_of [] = raise (exception ErrorKind.index_error (text "list index out of range"))
first_of (c ∷ cs) = pure c

unfoldable pub first_configuration : Nic → M IpConfiguration
first_configuration nic = first_of nic.ip_configurations

unfoldable pub isolation_rule : Text → Text → Text → ℕ → SecurityRule
isolation_rule access source name priority = record {
  access = access;
  direction = text "Inbound";
  source_address_prefix = source;
  source_port_range = text "*";
  name = name;
  destination_address_prefix = text "*";
  destination_port_range = text "*";
  priority = priority;
  protocol = text "*";
}

unfoldable pub is_custom : SecurityRule → Bool
is_custom rule = contains (text "custom_rule") rule.name

unfoldable pub first_nsg : Text → List Nsg → M Nsg
first_nsg group [] = raise (
    exception ErrorKind.plain_exception
      (text "The resource group " ++ group ++ text " does not contain a network security group."))
first_nsg group (nsg ∷ rest) = pure nsg

module _ (r : Retrying) (z : Azure) (k : Constants) where
  unfoldable pub list_network_security_group : Text → M (List Nsg)
  list_network_security_group group = retry5 r (call (list_nsgs group) z.nsgs)

  unfoldable pub create_network_security_group : Text → Text → M Nsg
  create_network_security_group group name = retry5 r (call (put_nsg group name) z.nsg)

  unfoldable pub get_network_security_group : Text → Text → M Nsg
  get_network_security_group group name = retry5 r (call (get_nsg group name) z.nsg)

  unfoldable pub create_network_security_group_rule :
      Text → Text → InboundRule → Text → ℕ → Text → M ⊤
  create_network_security_group_rule group nsg rule_data destination priority source = retry5 r (do
    rule ← lift (prepare_security_group_rule k rule_data destination priority source)
    call (put_security_rule group nsg rule) z.done)

  unfoldable pub create_network_security_group_custom_rule : Text → Text → SecurityRule → M ⊤
  create_network_security_group_custom_rule group nsg rule =
      retry5 r (call (put_security_rule group nsg rule) z.done)

  -- the loop over the inbound rules, each with the next priority
  unfoldable pub create_each : Text → Text → Text → Text → List InboundRule → Generator → M ⊤
  create_each group nsg destination source [] g = pure tt
  create_each group nsg destination source (rule_data ∷ rest) g =
      create_network_security_group_rule group nsg rule_data destination (next g).0 source
      >> create_each group nsg destination source rest (next g).1

  unfoldable pub create_network_security_group_rules :
      Text → Text → List InboundRule → Text → Option ℕ → Text → M ⊤
  create_network_security_group_rules group nsg inbound_rules destination start_from source =
      retry5 r (do
        rules ← call (list_security_rules group nsg) z.security_rules
        create_each group nsg destination source inbound_rules
            (rule_priority_generator (map (λ rule. rule.priority) rules) start_from))

  unfoldable pub create_isolated_network_security_group_rules : Text → Text → M ⊤
  create_isolated_network_security_group_rules group nsg = retry5 r (
      call
        (put_security_rule group nsg
          (isolation_rule k.allow (text "AzureLoadBalancer") (text "allow_azure_lb") 4010))
        z.done
      >> call
          (put_security_rule group nsg (isolation_rule k.deny (text "*") (text "deny_all_in") 4020))
          z.done)

  unfoldable pub delete_custom_security_rules_from_nsg : Text → Text → M ⊤
  delete_custom_security_rules_from_nsg group nsg = retry5 r (do
    rules ← call (list_security_rules group nsg) z.security_rules
    for_each (keep is_custom rules) λ rule. call (delete_security_rule group nsg rule.name) z.done)

  unfoldable pub get_first_network_security_group : Text → M Nsg
  get_first_network_security_group group =
      retry5 r (list_network_security_group group >>= first_nsg group)

  -- `NetworkService.get_private_ip` of domain/services/network_service.py
  unfoldable pub get_private_ip : Text → Text → M Text
  get_private_ip group vm_name = retry5 r (do
    nic ← call (get_nic group vm_name) z.nic
    c ← first_configuration nic
    pure c.private_ip_address)

  unfoldable pub delete_security_rules : Text → Text → M ⊤
  delete_security_rules group vm_name = retry5 r (do
    ip ← get_private_ip group vm_name
    nsg ← get_first_network_security_group group
    for_each (keep (λ rule. eq rule.destination_address_prefix ip) nsg.security_rules)
        λ rule. call (delete_security_rule group nsg.name rule.name) z.done)
