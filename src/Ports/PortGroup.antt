-- ===== src/Ports/PortGroup.antt =====
-- package/cloudshell/cp/azure/common/parsers/port_group_attribute_parser.py
use azure_shell.Prelude.{Option, none, some, List, keep, not, if◌then◌else◌}
use azure_shell.Text.{Text, text, is_empty}
use azure_shell.Text.Edit.{strip, split}
use azure_shell.Errors.{Result, ok, err, map_ok, ◌>>=◌}
use azure_shell.Models.{PortData}
use azure_shell.Ports.Match.{from_to_protocol, from_protocol, from_to, port_only, not_a_rule}

-- `RouteNextHopType.internet`, the default of `source`, is a name of the Azure library.
module _ (internet : Text) where
  abbrev pub port_data : Text → Text → Text → PortData
  port_data from to protocol = record {
    from_port = from;
    to_port = to;
    protocol = protocol;
    destination = some (text "0.0.0.0/0");
    source = internet;
    name = none;
  }

  port_or_error : Text → Option Text → Result PortData
  port_or_error s (some port) = ok (port_data port port (text "tcp"))
  port_or_error s none = err (not_a_rule s)

  range_or_port : Text → Option (Text × Text) → Result PortData
  range_or_port s (some (from, to)) = ok (port_data from to (text "tcp"))
  range_or_port s none = port_or_error s (port_only s)

  without_range : Text → Option (Text × Text) → Result PortData
  without_range s (some (port, protocol)) = ok (port_data port port protocol)
  without_range s none = range_or_port s (from_to s)

  with_range : Text → Option (Text × Text × Text) → Result PortData
  with_range s (some (from, to, protocol)) = ok (port_data from to protocol)
  with_range s none = without_range s (from_protocol (λ c. c) s)

  -- `PortGroupAttributeParser._single_port_parse`
  unfoldable pub single_port_parse : Text → Result PortData
  unfolding with_range without_range range_or_port port_or_error
  single_port_parse s = with_range s (from_to_protocol (λ c. c) s)

  -- `PortGroupAttributeParser.parse_port_group_attribute`; `none` is Python's `None`
  unfoldable pub parse_port_group_attribute : Text → Result (Option (List PortData))
  parse_port_group_attribute ports_attribute = if is_empty ports_attribute then ok none else do
    array ←
        map_ok (λ port. single_port_parse (strip port))
          (keep (λ port. not (is_empty port)) (split b';' (strip ports_attribute)))
    ok (some array)
