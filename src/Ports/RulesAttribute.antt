-- ===== src/Ports/RulesAttribute.antt =====
-- package/cloudshell/cp/azure/common/parsers/rules_attribute_parser.py
use azure_shell.Prelude.{Option, none, some, List, keep, not}
use azure_shell.Text.{Text, text, is_empty}
use azure_shell.Text.Edit.{strip, split, lower, lower_char}
use azure_shell.Errors.{Result, ok, err, map_ok}
use azure_shell.Models.{RuleData}
use azure_shell.Ports.Match.{from_to_protocol, from_protocol, from_to, port_only, not_a_rule}

-- `RuleData(protocol=protocol, from_port=from, to_port=to)`
abbrev pub rule_range : Text → Text → Text → RuleData
rule_range from to protocol = record {
  access = text "Allow";
  protocol = protocol;
  port = none;
  from_port = some from;
  to_port = some to;
  name = none;
}

-- `RuleData(protocol=protocol, port=port)`
abbrev pub rule_port : Text → Text → RuleData
rule_port port protocol = record {
  access = text "Allow";
  protocol = protocol;
  port = some port;
  from_port = none;
  to_port = none;
  name = none;
}

port_or_error : Text → Option Text → Result RuleData
port_or_error s (some port) = ok (rule_port port (text "tcp"))
port_or_error s none = err (not_a_rule s)

range_or_port : Text → Option (Text × Text) → Result RuleData
range_or_port s (some (from, to)) = ok (rule_range from to (text "tcp"))
range_or_port s none = port_or_error s (port_only s)

without_range : Text → Option (Text × Text) → Result RuleData
without_range s (some (port, protocol)) = ok (rule_port port (lower protocol))
without_range s none = range_or_port s (from_to s)

with_range : Text → Option (Text × Text × Text) → Result RuleData
with_range s (some (from, to, protocol)) = ok (rule_range from to (lower protocol))
with_range s none = without_range s (from_protocol lower_char s)

-- `RulesAttributeParser._single_port_parse`
unfoldable pub single_port_parse : Text → Result RuleData
unfolding with_range without_range range_or_port port_or_error
single_port_parse s = with_range s (from_to_protocol lower_char s)

-- `RulesAttributeParser.parse_port_group_attribute`
unfoldable pub parse_port_group_attribute : Text → Result (List RuleData)
parse_port_group_attribute ports_attribute =
    map_ok (λ port. single_port_parse (strip port))
      (keep (λ port. not (is_empty port)) (split b';' (strip ports_attribute)))
