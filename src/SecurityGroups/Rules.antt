-- ===== src/SecurityGroups/Rules.antt =====
-- `SecurityGroupService._prepare_security_group_rule` of
-- package/cloudshell/cp/azure/domain/services/security_group.py, and `RuleData.port_range`.
use azure_shell.Prelude.{ℕ, Option, none, some, ◌∷◌, ◌++◌, if◌then◌else◌, ◌≡◌, arith}
use azure_shell.Text.{Text, text, is_empty, eq}
use azure_shell.Text.Decimal.{show}
use azure_shell.Errors.{ErrorKind, exception, Result, ok, err}
use azure_shell.Models.{RuleData, PortData}
use azure_shell.Cloud.Objects.{SecurityRule}

-- names of the Azure library: `RouteNextHopType.internet`, `SecurityRuleProtocol.asterisk`,
-- `SecurityRuleAccess.allow` and `SecurityRuleAccess.deny`
pub record Constants : Type 0 where
  pub internet : Text
  pub asterisk : Text
  pub allow : Text
  pub deny : Text

-- what is passed as `rule_data`: the classes that the code tells apart, or another one with a name
pub data InboundRule : Type 0 where
  of_rule_data : RuleData → InboundRule
  of_port_data : PortData → InboundRule
  unsupported : InboundRule

-- `"{}".format(x)` of a text or `None`
unfoldable pub show_option : Option Text → Text
show_option none = text "None"
show_option (some s) = s

-- `x or y`, where `x` may be `None` or empty
unfoldable pub text_or : Option Text → Text → Text
text_or none y = y
text_or (some s) y = if is_empty s then y else s

-- `"{}-{}".format(a, b)`
unfoldable pub dashed : Text → Text → Text
dashed a b = a ++ b'-' ∷ b

-- `RuleData.port_range`, and the port range of a `RuleData` in a security rule
unfoldable pub port_range : RuleData → Text
port_range d = text_or d.port (dashed (show_option d.from_port) (show_option d.to_port))

unfoldable pub port_data_range : PortData → Text
port_data_range d = if eq d.from_port d.to_port then d.from_port else dashed d.from_port d.to_port

unfoldable pub rule_name : Option Text → ℕ → Text
rule_name name priority = text_or name (text "rule_" ++ show priority)

unfoldable pub prepare_security_group_rule :
    Constants → InboundRule → Text → ℕ → Text → Result SecurityRule
prepare_security_group_rule k (of_rule_data d) destination priority source = ok (record {
  access = d.access;
  direction = text "Inbound";
  source_address_prefix = source;
  source_port_range = k.asterisk;
  name = rule_name d.name priority;
  destination_address_prefix = destination;
  destination_port_range = port_range d;
  priority = priority;
  protocol = d.protocol;
})
prepare_security_group_rule k (of_port_data d) destination priority source = ok (record {
  access = text "Allow";
  direction = text "Inbound";
  source_address_prefix = d.source;
  source_port_range = k.asterisk;
  name = rule_name d.name priority;
  destination_address_prefix = destination;
  destination_port_range = port_data_range d;
  priority = priority;
  protocol = d.protocol;
})
prepare_security_group_rule k unsupported destination priority source =
    err (exception ErrorKind.value_error (text "Unsupported type"))

-- Every rule that is prepared has the priority and the destination that it was asked for, and is for
-- inbound traffic.
pub prepare_security_group_rule_lem :
    (k : Constants) (d : InboundRule) (destination : Text) (priority : ℕ) (source : Text)
    (rule : SecurityRule)
    → prepare_security_group_rule k d destination priority source ≡ ok rule
    → (rule.priority ≡ priority)
      × (rule.destination_address_prefix ≡ destination)
      × (rule.direction ≡ text "Inbound")
unfolding prepare_security_group_rule
prepare_security_group_rule_lem k (of_rule_data d) destination priority source rule h = ground arith
prepare_security_group_rule_lem k (of_port_data d) destination priority source rule h = ground arith
prepare_security_group_rule_lem k unsupported destination priority source rule h = cc
