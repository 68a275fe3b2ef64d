-- ===== src/Sandbox.antt =====
-- The security rules of a sandbox's subnets, of `PrepareSandboxInfraOperation` in
-- package/cloudshell/cp/azure/domain/vm_management/operations/PrepareSandboxInfraOperation.py.
pub mod Rules
use azure_shell.Prelude.{ℕ, Bool, not, Option, none, some, List, [], ◌∷◌, ◌++◌, keep, ⊤}
use azure_shell.Text.{Text, text}
use azure_shell.Text.Edit.{replace}
use azure_shell.Errors.{ErrorKind, exception}
use azure_shell.Models.{RuleData}
use azure_shell.Cloud.{Azure}
use azure_shell.Effects.{M, ◌>>=◌, ◌>>◌, pure, raise, for_each}
use azure_shell.Effects.Retry.{Retrying}
use azure_shell.SecurityGroups.{create_network_security_group_rules}
use azure_shell.SecurityGroups.Rules.{Constants, of_rule_data}

-- `PrepareSubnet`, by its `actionParams`
pub record PrepareSubnet : Type 0 where
  pub cidr : Text
  pub is_public : Bool

abbrev pub all_traffic : Text → Text → Text → RuleData
all_traffic protocol access name = record {
  access = access;
  protocol = protocol;
  port = some (text "*");
  from_port = none;
  to_port = none;
  name = some name;
}

abbrev pub allow_all_rule : Constants → Text → RuleData
allow_all_rule k name = all_traffic k.asterisk k.allow name

abbrev pub deny_all_rule : Constants → Text → RuleData
deny_all_rule k name = all_traffic k.asterisk k.deny name

-- `cidr.replace('/', '-')`
abbrev pub dash_cidr : Text → Text
dash_cidr cidr = replace b'/' (b'-' ∷ []) cidr

-- `'Allow_{0}_To_{1}'`
abbrev pub allow_name : Text → Text → Text
allow_name source destination =
    text "Allow_" ++ dash_cidr source ++ text "_To_" ++ dash_cidr destination

-- `vnet.address_space.address_prefixes[0]`
unfoldable pub first_prefix : List Text → M Text
first_prefix [] = raise (exception ErrorKind.index_error (text "list index out of range"))
first_prefix (cidr ∷ rest) = pure cidr

module _ (r : Retrying) (z : Azure) (k : Constants) (group nsg : Text) where
  -- a call of `create_network_security_group_rules` for one rule
  unfoldable pub create_one : RuleData → Text → Text → ℕ → M ⊤
  create_one rule_data destination source start_from =
      create_network_security_group_rules r z k group nsg (of_rule_data rule_data ∷ []) destination
        (some start_from) source

  -- the body of the first loop over the subnets
  unfoldable pub allow_sandbox : Text → PrepareSubnet → M ⊤
  allow_sandbox sandbox_cidr s =
      create_one (allow_all_rule k (text "Allow_Sandbox_Traffic_To_" ++ dash_cidr s.cidr)) s.cidr
        sandbox_cidr 2000

  -- the body of the loop over the private subnets
  unfoldable pub deny_internet : PrepareSubnet → M ⊤
  deny_internet s =
      create_one
        (deny_all_rule k (text "Deny_Internet_Traffic_To_Private_Subnet_" ++ dash_cidr s.cidr))
        s.cidr k.internet 2000

  -- the body of the loop over the additional management networks
  unfoldable pub allow_network : Text → Text → M ⊤
  allow_network sandbox_cidr a =
      create_one (allow_all_rule k (allow_name a sandbox_cidr)) sandbox_cidr a 4000

  unfoldable pub allow_management : Text → Text → M ⊤
  allow_management sandbox_cidr management_vnet_cidr =
      create_one (allow_all_rule k (allow_name management_vnet_cidr sandbox_cidr)) sandbox_cidr
        management_vnet_cidr 4080

  unfoldable pub deny_sandboxes : Text → Text → M ⊤
  deny_sandboxes sandbox_cidr sandbox_vnet_cidr =
      create_one (deny_all_rule k (text "Deny_Traffic_From_Other_Sandboxes_To_Sandbox_CIDR"))
        sandbox_cidr sandbox_vnet_cidr 4090

  -- `_create_subnet_nsg_rules`; the virtual networks are given by their address prefixes
  unfoldable pub create_subnet_nsg_rules :
      List Text → List Text → Text → List Text → List PrepareSubnet → M ⊤
  create_subnet_nsg_rules management_vnet sandbox_vnet sandbox_cidr additional subnet_actions = do
    management_vnet_cidr ← first_prefix management_vnet
    sandbox_vnet_cidr ← first_prefix sandbox_vnet
    for_each subnet_actions (allow_sandbox sandbox_cidr)
    for_each (keep (λ s. not s.is_public) subnet_actions) deny_internet
    for_each additional (allow_network sandbox_cidr)
    allow_management sandbox_cidr management_vnet_cidr
    deny_sandboxes sandbox_cidr sandbox_vnet_cidr
