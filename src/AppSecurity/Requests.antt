-- ===== src/AppSecurity/Requests.antt =====
-- The request of the custom rules of apps: `SecurityGroupParser` of
-- package/cloudshell/cp/azure/common/parsers/security_group_parser.py,
-- `parse_security_group_rules_to_port_data` of port_group_attribute_parser.py beside it, and
-- `convert_to_app_security_group_models` of azure_model_parser.py. A request is given decoded from
-- JSON; what is not a list is `none`.
use azure_shell.Prelude.{Option, none, some, List, [], ◌∷◌, map}
use azure_shell.Text.{Text}
use azure_shell.Models.{PortData}
use azure_shell.AppSecurity.{Configuration, AppSecurityGroup}

pub record RequestedRule : Type 0 where
  pub from_port : Text
  pub to_port : Text
  pub protocol : Text
  pub source : Text

pub record RequestedConfiguration : Type 0 where
  pub subnet_id : Text
  pub rules : Option (List RequestedRule)

pub record RequestedApp : Type 0 where
  pub name : Text
  pub configurations : Option (List RequestedConfiguration)

-- `parsed_data if (len(parsed_data) > 0) else None`
unfoldable pub unless_none : {A : Type 0} → List A → Option (List A)
unless_none [] = none
unless_none (x ∷ xs) = some (x ∷ xs)

-- the body of the loop of `parse_security_group_rules_to_port_data`
unfoldable pub port_data_of_rule : RequestedRule → PortData
port_data_of_rule rule = record {
  from_port = rule.from_port;
  to_port = rule.to_port;
  protocol = rule.protocol;
  destination = none;
  source = rule.source;
  name = none;
}

unfoldable pub parse_security_group_rules_to_port_data :
    Option (List RequestedRule) → Option (List PortData)
parse_security_group_rules_to_port_data none = none
parse_security_group_rules_to_port_data (some rules) = unless_none (map port_data_of_rule rules)

-- the body of the loop of `parse_security_group_configurations`
unfoldable pub parse_configuration : RequestedConfiguration → Configuration
parse_configuration configuration = record {
  subnet_id = configuration.subnet_id;
  rules = parse_security_group_rules_to_port_data configuration.rules;
}

unfoldable pub parse_security_group_configurations :
    Option (List RequestedConfiguration) → Option (List Configuration)
parse_security_group_configurations none = none
parse_security_group_configurations (some configurations) =
    unless_none (map parse_configuration configurations)

-- the body of the loop of `convert_to_app_security_group_models`
unfoldable pub model_of : RequestedApp → AppSecurityGroup
model_of security_group = record {
  app_name = security_group.name;
  configurations = parse_security_group_configurations security_group.configurations;
}

unfoldable pub convert_to_app_security_group_models : List RequestedApp → List AppSecurityGroup
convert_to_app_security_group_models security_groups = map model_of security_groups
