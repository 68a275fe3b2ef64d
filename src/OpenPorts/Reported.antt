-- ===== src/OpenPorts/Reported.antt =====
-- What the report of the open ports says of an attribute.
use azure_shell.Prelude.{◌≡◌, refl, some, List, [], ◌∷◌, ◌++◌, map, All}
use azure_shell.Text.{Text, text}
use azure_shell.Text.Edit.{lower, lower_char}
use azure_shell.Errors.{ok}
use azure_shell.Ports.Spec.{PortSpec, range_protocol, port_protocol, range, port, IsValid}
use azure_shell.Ports.RoundTrip.{
  rule_of, print_all, print_all-ne_empty, parse_port_group_attribute-print_all,
}
use azure_shell.Power.{Param, get_custom_param_value}
use azure_shell.SecurityGroups.Rules.{dashed, show_option}
use azure_shell.OpenPorts.{
  get_formated_deployed_app_ports, report_of, lines_or_error, result_lines, join_lines,
  port_rule_to_string, line_of, range_line, port_line,
}

-- the line of an entry: `Port` or `Ports`, what is open, and the protocol, `tcp` where none is named
abbrev pub described : PortSpec → Text
described (range_protocol f t p) = text "Ports" ++ b' ' ∷ (f ++ b'-' ∷ t) ++ b' ' ∷ lower p
described (port_protocol f p) = text "Port" ++ b' ' ∷ f ++ b' ' ∷ lower p
described (range f t) = text "Ports" ++ b' ' ∷ (f ++ b'-' ∷ t) ++ b' ' ∷ text "tcp"
described (port f) = text "Port" ++ b' ' ∷ f ++ b' ' ∷ text "tcp"

-- each line with its end
abbrev pub all_described : List PortSpec → Text
all_described [] = []
all_described (s ∷ l) = described s ++ b'\n' ∷ all_described l

port_rule_to_string-rule_of :
    (s : PortSpec) → IsValid lower_char s → port_rule_to_string (rule_of s) ≡ described s
unfolding port_rule_to_string line_of range_line port_line dashed show_option text
port_rule_to_string-rule_of (range_protocol f t p) h = refl
port_rule_to_string-rule_of (port_protocol f p) h = rw (h.0.1)
port_rule_to_string-rule_of (range f t) h = refl
port_rule_to_string-rule_of (port f) h = rw (h.1)

join_lines-map :
    (l : List PortSpec)
    → All (IsValid lower_char) l
    → join_lines (map port_rule_to_string (map rule_of l) ++ [] ∷ []) ≡ all_described l
unfolding join_lines
join_lines-map [] h = refl
join_lines-map (s ∷ []) h = rw (port_rule_to_string-rule_of s h.0)
join_lines-map (s ∷ t ∷ l) h = rw (port_rule_to_string-rule_of s h.0, join_lines-map (t ∷ l) h.1)

module _ (params : List Param) (s : PortSpec) (l : List PortSpec) where
  -- When the parameters of an app have `inbound_ports` exactly once, in any case, with a list of
  -- valid entries, the report has its heading and then one line for each entry, in their order:
  -- whether it is one port or a range, what is open, and the protocol in lower case.
  pub get_formated_deployed_app_ports-print_all :
      get_custom_param_value params (text "inbound_ports") ≡ some (print_all (s ∷ l))
      → All (IsValid lower_char) (s ∷ l)
      → get_formated_deployed_app_ports params
        ≡ ok (text "Inbound ports:" ++ b'\n' ∷ all_described (s ∷ l))
  unfolding get_formated_deployed_app_ports report_of lines_or_error result_lines join_lines
  get_formated_deployed_app_ports-print_all found h = rw (
    found,
    print_all-ne_empty s l h.0,
    parse_port_group_attribute-print_all (s ∷ l) h,
    join_lines-map (s ∷ l) h,
  )
