-- ===== src/OpenPorts.antt =====
-- `DeployedAppPortsOperation` of
-- package/cloudshell/cp/azure/domain/vm_management/operations/app_ports_operation.py: what a user
-- reads of the inbound ports of an app.
pub mod Reported
use azure_shell.Prelude.{Option, none, some, List, [], ◌∷◌, ◌++◌, map, if◌then◌else◌}
use azure_shell.Text.{Text, text, is_empty}
use azure_shell.Errors.{Result, ok, err}
use azure_shell.Models.{RuleData}
use azure_shell.Ports.RulesAttribute.{parse_port_group_attribute}
use azure_shell.Power.{Param, get_custom_param_value}
use azure_shell.SecurityGroups.Rules.{dashed, show_option}

-- `'\n'.join(l)`
unfoldable pub join_lines : List Text → Text
join_lines [] = []
join_lines (line ∷ []) = line
join_lines (line ∷ next ∷ lines) = line ++ b'\n' ∷ join_lines (next ∷ lines)

-- `"Port{0} {1} {2}".format(port_postfix, port_str, port_rule.protocol)`
unfoldable pub port_line : Text → Text → Text → Text
port_line port_postfix port_str protocol =
    text "Port" ++ port_postfix ++ b' ' ∷ (port_str ++ b' ' ∷ protocol)

-- the two branches of `if port_rule.port`
unfoldable pub range_line : RuleData → Text
range_line rule =
    port_line (text "s") (dashed (show_option rule.from_port) (show_option rule.to_port))
      rule.protocol

unfoldable pub line_of : RuleData → Option Text → Text
line_of rule none = range_line rule
line_of rule (some port) =
    if is_empty port then range_line rule else port_line [] port rule.protocol

-- `_port_rule_to_string`
unfoldable pub port_rule_to_string : RuleData → Text
port_rule_to_string rule = line_of rule rule.port

-- `result_str_list`, which is empty without rules
unfoldable pub result_lines : List RuleData → List Text
result_lines [] = []
result_lines (rule ∷ rules) =
    text "Inbound ports:" ∷ map port_rule_to_string (rule ∷ rules) ++ [] ∷ []

unfoldable pub lines_or_error : Result (List RuleData) → Result Text
lines_or_error (err e) = err e
lines_or_error (ok rules) = ok (join_lines (result_lines rules))

-- `if not inbound_ports_value`
unfoldable pub report_of : Option Text → Result Text
report_of none = ok (text "No ports are open for inbound traffic outside of the Sandbox")
report_of (some value) =
    if is_empty value
    then ok (text "No ports are open for inbound traffic outside of the Sandbox")
    else lines_or_error (parse_port_group_attribute value)

unfoldable pub get_formated_deployed_app_ports : List Param → Result Text
get_formated_deployed_app_ports custom_params =
    report_of (get_custom_param_value custom_params (text "inbound_ports"))
