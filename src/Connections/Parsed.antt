-- ===== src/Connections/Parsed.antt =====
-- What comes of a device index that is set, and of the network actions of a request.
use azure_shell.Prelude.{
  ℕ, ◌≡◌, refl, Bool, true, false, not, ◌&&◌, Option, none, some, List, [], ◌∷◌, map, keep, arith,
}
use azure_shell.Text.{Text, text, eq, eq_refl}
use azure_shell.Errors.{Result, ok, err, map_ok, ◌>>=◌}
use azure_shell.Connections.{
  AttributeValue, ActionAttribute, ParamsData, connect_to_subnet, prepare_subnet,
  prepare_cloud_infra, other_params, SubnetConnectionParams, ConnectionParams, subnet_params,
  NetworkAction, vnic_name_attribute, parse_params, parse_or_none, subnet_id_of, parse_action,
  some_or_none, parse_network_actions_data, int_of, int_or_none, device_index, assign_index,
  set_device_index,
}

-- the attributes of other names
abbrev pub others : List ActionAttribute → List ActionAttribute
others attributes = keep (λ a. not (eq a.name vnic_name_attribute)) attributes

module _ (to_int : Text → Result ℕ) where
  device_index-assign :
      (n : ℕ) (l : List ActionAttribute)
      → (device_index to_int (assign_index n l) ≡ some n) × (others (assign_index n l) ≡ others l)
  unfolding device_index assign_index int_of int_or_none
  device_index-assign n [] = ground (arith, eq_refl vnic_name_attribute)
  device_index-assign n (a ∷ l) = ground (arith, device_index-assign n l)

  -- When `int` reads a value as a number, setting the device index to the value returns parameters
  -- whose device index is that number, whether they had one or not; the attributes of other names,
  -- those of the subnet and its id are as before.
  pub device_index-set :
      (value : AttributeValue) (n : ℕ) (params : SubnetConnectionParams)
      → int_of to_int value ≡ ok n
      → (after : SubnetConnectionParams) × (set_device_index to_int value params ≡ ok after)
        × (device_index to_int after.custom_attributes ≡ some n)
        × (others after.custom_attributes ≡ others params.custom_attributes)
        × (after.service_attributes ≡ params.service_attributes)
        × (after.subnet_id ≡ params.subnet_id)
  unfolding set_device_index
  device_index-set value n params e =
      let l = device_index-assign n params.custom_attributes in
      (
        record params { custom_attributes = assign_index n params.custom_attributes },
        rw e,
        l.0,
        l.1,
        refl,
        refl,
      )

-- an action that connects to a subnet
abbrev pub is_connect : Option ParamsData → Bool
is_connect (some (connect_to_subnet _ _ _ _)) = true
is_connect _ = false

abbrev pub all_connect : List (Text × Option ParamsData) → Bool
all_connect [] = true
all_connect (action ∷ actions) = is_connect action.1 && all_connect actions

-- the id of an action of a request, and the subnet that it names
abbrev pub requested : Text × Option ParamsData → Text × Text
requested (id, some (connect_to_subnet _ _ subnet_id _)) = (id, subnet_id)
requested (id, _) = (id, text "")

abbrev pub subnet_named : Option ConnectionParams → Text
subnet_named (some (subnet_params params)) = params.subnet_id
subnet_named _ = text ""

abbrev pub parsed_as : NetworkAction → Text × Text
parsed_as action = (action.id, subnet_named action.connection_params)

-- what the parser gives for actions
abbrev pub Outcome : Bool → List (Text × Option ParamsData) → Result (List NetworkAction) → Type 0
Outcome true actions (ok parsed) = map parsed_as parsed ≡ map requested actions
Outcome true actions (err e) = ⊥
Outcome false actions (ok parsed) = ⊥
Outcome false actions (err e) = Unit

parse_action_lem :
    (action : Text × Option ParamsData)
    → Outcome (is_connect action.1) (action ∷ []) (do a ← parse_action action; ok (a ∷ []))
unfolding parse_action parse_or_none parse_params subnet_id_of
parse_action_lem (id, none) = tt
parse_action_lem (id, some (connect_to_subnet cidr attributes subnet_id vnic_name)) = refl
parse_action_lem (id, some (prepare_subnet cidr attributes is_public alias)) = tt
parse_action_lem (id, some (prepare_cloud_infra cidr attributes)) = tt
parse_action_lem (id, some other_params) = tt

module _ (action : Text × Option ParamsData) (actions : List (Text × Option ParamsData)) where
  Outcome-cons :
      (one all : Bool) (x : Result NetworkAction) (y : Result (List NetworkAction))
      → Outcome one (action ∷ []) (do a ← x; ok (a ∷ []))
      → Outcome all actions y
      → Outcome (one && all) (action ∷ actions) (do a ← x; more ← y; ok (a ∷ more))
  Outcome-cons true true (ok a) (ok more) f g = ground (arith, f, g)
  Outcome-cons true false (ok a) (err e) f g = tt
  Outcome-cons false all (err e) y f g = tt
  Outcome-cons one all x y f g = ground (arith, f, g)

map_ok_lem :
    (actions : List (Text × Option ParamsData))
    → Outcome (all_connect actions) actions (map_ok parse_action actions)
map_ok_lem [] = refl
map_ok_lem (action ∷ actions) =
    Outcome-cons action actions (is_connect action.1) (all_connect actions) (parse_action action)
      (map_ok parse_action actions) (parse_action_lem action) (map_ok_lem actions)

-- the actions, where the parser returns a list
abbrev pub listed : Result (Option (List NetworkAction)) → Result (List NetworkAction)
listed (ok none) = ok []
listed (ok (some actions)) = ok actions
listed (err e) = err e

-- Where all actions of a list connect to subnets, the parser returns them with their ids and with the
-- subnets that they name, in their order. Where one of them prepares a subnet or the infrastructure,
-- has no parameters or parameters of another class, the parser raises.
pub parse_network_actions_data_lem :
    (actions : List (Text × Option ParamsData))
    → Outcome (all_connect actions) actions (listed (parse_network_actions_data (some actions)))
unfolding parse_network_actions_data some_or_none
parse_network_actions_data_lem actions =
    after (all_connect actions) (map_ok parse_action actions) (map_ok_lem actions)
  where
    after :
        (b : Bool) (x : Result (List NetworkAction))
        → Outcome b actions x
        → Outcome b actions (listed (do parsed ← x; ok (some_or_none parsed)))
    after b (ok []) f = f
    after b (ok (a ∷ more)) f = f
    after b (err e) f = f
