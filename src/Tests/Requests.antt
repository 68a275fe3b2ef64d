-- ===== src/Tests/Requests.antt =====
-- What is read of requests.
use azure_shell.Prelude.{ℕ, ◌≡◌, refl, false, Option, none, some, List, [], ◌∷◌}
use azure_shell.Text.{Text, text}
use azure_shell.Errors.{Result, ok, err, ErrorKind, exception}
use azure_shell.Connections.{
  ParamsData, connect_to_subnet, prepare_cloud_infra, text_value, SubnetConnectionParams,
  device_index, set_device_index, int_of, parse_network_actions_data,
}
use azure_shell.Connections.Parsed.{
  device_index-set, others, listed, Outcome, parse_network_actions_data_lem,
}
use azure_shell.DataHolders.{
  Json, number, string, array, object, nil, item, end, member, create_obj_by_type,
}
use azure_shell.DataHolders.Paths.{
  name_step, into_json, into_value, follow, converted, follow-create,
}

-- reads `7` and nothing else
abbrev seven : Text → Result ℕ
seven (c ∷ []) = ok 7
seven s = err (exception ErrorKind.value_error s)

abbrev params : SubnetConnectionParams
params = record {
  cidr = text "10.0.0.0/24";
  service_attributes = [];
  custom_attributes =
      record { name = text "Other"; value = text_value (text "x") }
      ∷ record { name = text "Vnic Name"; value = text_value (text "eth0") }
      ∷ [];
  subnet_id = text "subnet";
}

device_index-set_example :
    (after : SubnetConnectionParams) × (set_device_index seven (text_value (b'7' ∷ [])) params
      ≡ ok after)
    × (device_index seven after.custom_attributes ≡ some 7)
    × (others after.custom_attributes ≡ others params.custom_attributes)
    × (after.service_attributes ≡ params.service_attributes)
    × (after.subnet_id ≡ params.subnet_id)
device_index-set_example =
    device_index-set seven (text_value (b'7' ∷ [])) 7 params (unfold int_of in refl)

-- the second action does not connect to a subnet
abbrev requested_actions : List (Text × Option ParamsData)
requested_actions =
    (text "a", some (connect_to_subnet (text "10.0.0.0/24") [] (text "subnet") none))
    ∷ (text "b", some (prepare_cloud_infra (text "10.0.0.0/16") []))
    ∷ []

parse_network_actions_data_example :
    Outcome false requested_actions (listed (parse_network_actions_data (some requested_actions)))
parse_network_actions_data_example = parse_network_actions_data_lem requested_actions

-- a request with a name that is given twice
abbrev json : Json
json = object (
    member (text "app")
      (object (
        member (text "name") (string (text "old"))
          (member (text "name") (string (text "web")) end)))
      (member (text "ports") (array (item (number (text "80")) nil)) end))

follow-create_example :
    follow into_value
      (name_step (text "app") ∷ name_step (text "name") ∷ [])
      (create_obj_by_type json)
    ≡ converted (follow into_json (name_step (text "app") ∷ name_step (text "name") ∷ []) json)
follow-create_example = follow-create (name_step (text "app") ∷ name_step (text "name") ∷ []) json
