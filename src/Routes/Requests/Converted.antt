-- ===== src/Routes/Requests/Converted.antt =====
-- Requests for route tables, written as JSON and converted.
use azure_shell.Prelude.{◌≡◌, refl, Bool, List, [], ◌∷◌, map, if◌then◌else◌}
use azure_shell.Text.{Text, text, eq}
use azure_shell.Errors.{Result, ok}
use azure_shell.DataHolders.{Json, string, array, object, Items, nil, item, end, member}
use azure_shell.Networks.Creation.{Route}
use azure_shell.Routes.{RouteTableRequest}
use azure_shell.Routes.Requests.{
  RouteModel, RouteTableModel, member_or_error, subscript, elements, convert_route, convert_routes,
  is_true, convert_route_table, convert_route_tables, convert_to_route_table_model,
}

-- a request as the documentation of `create_route_tables` writes it
abbrev pub texts_json : List Text → Items
texts_json [] = nil
texts_json (s ∷ texts) = item (string s) (texts_json texts)

abbrev pub route_json : Route → Json
route_json (name, next_hop_address, next_hop_type, address_prefix) = object (
    member (text "name") (string name) (
      member (text "address_prefix") (string address_prefix) (
        member (text "next_hop_type") (string next_hop_type)
          (member (text "next_hop_address") (string next_hop_address) end))))

abbrev pub routes_json : List Route → Items
routes_json [] = nil
routes_json (route ∷ routes) = item (route_json route) (routes_json routes)

abbrev pub table_json : RouteTableRequest → Json
table_json table = object (
    member (text "name") (string table.name) (
      member (text "subnets") (array (texts_json table.subnets))
        (member (text "routes") (array (routes_json table.routes)) end)))

abbrev pub tables_json : List RouteTableRequest → Items
tables_json [] = nil
tables_json (table ∷ tables) = item (table_json table) (tables_json tables)

abbrev pub request_json : List RouteTableRequest → Json
request_json tables = object (member (text "route_tables") (array (tables_json tables)) end)

-- the models with the fields of a request
abbrev pub route_model : Route → RouteModel
route_model (name, next_hop_address, next_hop_type, address_prefix) = record {
  name = string name;
  route_address_prefix = string address_prefix;
  next_hop_type = string next_hop_type;
  next_hope_address = string next_hop_address;
}

abbrev pub table_model : RouteTableRequest → RouteTableModel
table_model table = record {
  name = string table.name;
  subnets = array (texts_json table.subnets);
  routes = map route_model table.routes;
}

convert_route-json : (route : Route) → convert_route (route_json route) ≡ ok (route_model route)
unfolding convert_route subscript member_or_error eq text
convert_route-json (name, next_hop_address, next_hop_type, address_prefix) = refl

convert_routes-json :
    (routes : List Route) → convert_routes (routes_json routes) ≡ ok (map route_model routes)
unfolding convert_routes
convert_routes-json [] = refl
convert_routes-json (route ∷ routes) = rw (convert_route-json route, convert_routes-json routes)

module _ (is_zero : Text → Bool) where
  -- a list without subnets is replaced by another
  subnets-kept :
      (subnets : List Text)
      → (if is_true is_zero (array (texts_json subnets))
          then array (texts_json subnets)
          else array nil)
        ≡ array (texts_json subnets)
  unfolding is_true
  subnets-kept [] = refl
  subnets-kept (s ∷ subnets) = refl

  convert_route_table-json :
      (table : RouteTableRequest)
      → convert_route_table is_zero (table_json table) ≡ ok (table_model table)
  unfolding convert_route_table subscript member_or_error eq text elements
  convert_route_table-json table = rw (convert_routes-json table.routes, subnets-kept table.subnets)

  convert_route_tables-json :
      (tables : List RouteTableRequest)
      → convert_route_tables is_zero (tables_json tables) ≡ ok (map table_model tables)
  unfolding convert_route_tables
  convert_route_tables-json [] = refl
  convert_route_tables-json (table ∷ tables) =
      rw (convert_route_table-json table, convert_route_tables-json tables)

  -- A request for route tables, written as JSON the way the documentation of the command shows, is
  -- converted to models with its names, subnets and routes, in their order, where `jsonpickle` decodes
  -- what is sent as that JSON.
  pub convert_to_route_table_model-json :
      (decode : Text → Result Json) (request : Text) (tables : List RouteTableRequest)
      → decode request ≡ ok (request_json tables)
      → convert_to_route_table_model is_zero decode request ≡ ok (map table_model tables)
  unfolding convert_to_route_table_model subscript member_or_error eq text elements
  convert_to_route_table_model-json decode request tables decoded =
      rw (decoded, convert_route_tables-json tables)
