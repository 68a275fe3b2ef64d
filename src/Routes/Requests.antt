-- ===== src/Routes/Requests.antt =====
-- `AzureModelsParser.convert_to_route_table_model` of
-- package/cloudshell/cp/azure/common/parsers/azure_model_parser.py, on any JSON. A request is converted
-- without a look at what its fields are, so that they are JSON here. Of Python's own exceptions the
-- class is kept, and of a `KeyError` the key. What `jsonpickle` decodes is an argument, and so is
-- whether a number, as it is written, is 0.
pub mod Converted
use azure_shell.Prelude.{Bool, true, false, Option, none, some, List, [], ◌∷◌, if◌then◌else◌}
use azure_shell.Text.{Text, text, is_empty}
use azure_shell.Errors.{Result, ok, err, ErrorKind, exception, ◌>>=◌}
use azure_shell.DataHolders.{
  Json, null, boolean, number, string, array, object, Items, nil, item, Members, end, member,
}
use azure_shell.DataHolders.Paths.{last_member}

-- `RouteResourceModel`
pub record RouteModel : Type 0 where
  pub name : Json
  pub route_address_prefix : Json
  pub next_hop_type : Json
  pub next_hope_address : Json

-- `RouteTableRequestResourceModel`
pub record RouteTableModel : Type 0 where
  pub name : Json
  pub subnets : Json
  pub routes : List RouteModel

unfoldable pub member_or_error : Text → Option Json → Result Json
member_or_error name none = err (exception ErrorKind.key_error name)
member_or_error name (some j) = ok j

-- `j[name]`
unfoldable pub subscript : Json → Text → Result Json
subscript (object members) name = member_or_error name (last_member name members)
subscript _ name = err (exception ErrorKind.type_error name)

-- the characters of a string and the keys of a dictionary, as strings; no element of these is a
-- dictionary, so that how often and in which order they come makes no difference
unfoldable pub characters : Text → Items
characters [] = nil
characters (c ∷ s) = item (string (c ∷ [])) (characters s)

unfoldable pub keys : Members → Items
keys end = nil
keys (member name j members) = item (string name) (keys members)

-- what `for x in j` visits
unfoldable pub elements : Json → Result Items
elements (array items) = ok items
elements (string s) = ok (characters s)
elements (object members) = ok (keys members)
elements _ = err (exception ErrorKind.type_error (text "object is not iterable"))

unfoldable pub convert_route : Json → Result RouteModel
convert_route route = do
  name ← subscript route (text "name")
  address_prefix ← subscript route (text "address_prefix")
  next_hop_type ← subscript route (text "next_hop_type")
  next_hop_address ← subscript route (text "next_hop_address")
  ok (record {
    name = name;
    route_address_prefix = address_prefix;
    next_hop_type = next_hop_type;
    next_hope_address = next_hop_address;
  })

unfoldable pub convert_routes : Items → Result (List RouteModel)
convert_routes nil = ok []
convert_routes (item route rest) = do
  model ← convert_route route
  models ← convert_routes rest
  ok (model ∷ models)

module _ (is_zero : Text → Bool) where
  -- `if j:`
  unfoldable pub is_true : Json → Bool
  is_true null = false
  is_true (boolean b) = b
  is_true (number n) = if is_zero n then false else true
  is_true (string s) = if is_empty s then false else true
  is_true (array nil) = false
  is_true (array (item _ _)) = true
  is_true (object end) = false
  is_true (object (member _ _ _)) = true

  unfoldable pub convert_route_table : Json → Result RouteTableModel
  convert_route_table table = do
    name ← subscript table (text "name")
    subnets ← subscript table (text "subnets")
    routes ← subscript table (text "routes")
    routes ← elements routes
    models ← convert_routes routes
    ok (record {
      name = name;
      subnets = if is_true subnets then subnets else array nil;
      routes = models;
    })

  unfoldable pub convert_route_tables : Items → Result (List RouteTableModel)
  convert_route_tables nil = ok []
  convert_route_tables (item table rest) = do
    model ← convert_route_table table
    models ← convert_route_tables rest
    ok (model ∷ models)

  unfoldable pub convert_to_route_table_model :
      (Text → Result Json) → Text → Result (List RouteTableModel)
  convert_to_route_table_model decode request = do
    decoded ← decode request
    tables ← subscript decoded (text "route_tables")
    tables ← elements tables
    convert_route_tables tables
