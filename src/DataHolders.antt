-- ===== src/DataHolders.antt =====
-- `DeployDataHolder` of package/cloudshell/cp/azure/common/deploy_data_holder.py: what is decoded from
-- JSON, with objects in place of dictionaries. A JSON object is the list of its members as they are
-- written, so that a dictionary has the last one of a name. A number is kept as it is written.
pub mod Paths
use azure_shell.Prelude.{Bool, Option, none, some, if◌then◌else◌}
use azure_shell.Text.{Text, eq}

mutual
  pub data Json : Type 0 where
    null : Json
    boolean : Bool → Json
    number : Text → Json
    string : Text → Json
    array : Items → Json
    object : Members → Json

  pub data Items : Type 0 where
    nil : Items
    item : Json → Items → Items

  pub data Members : Type 0 where
    end : Members
    member : Text → Json → Members → Members

-- a Python value; the attributes of a holder are in the order of their first assignments
mutual
  pub data Value : Type 0 where
    none_value : Value
    bool_value : Bool → Value
    number_value : Text → Value
    text_value : Text → Value
    list_value : Values → Value
    holder : Attributes → Value

  pub data Values : Type 0 where
    nothing : Values
    value : Value → Values → Values

  pub data Attributes : Type 0 where
    bare : Attributes
    attribute : Text → Value → Attributes → Attributes

-- `setattr`
unfoldable pub set_attribute : Text → Value → Attributes → Attributes
set_attribute name v bare = attribute name v bare
set_attribute name v (attribute other w attributes) =
    if eq other name
    then attribute other v attributes
    else attribute other w (set_attribute name v attributes)

-- `getattr`
unfoldable pub get_attribute : Text → Attributes → Option Value
get_attribute name bare = none
get_attribute name (attribute other v attributes) =
    if eq other name then some v else get_attribute name attributes

-- `create_obj_by_type`, which `_create_obj_by_type` repeats; the lists that it makes; and the loop of
-- `__init__`, from the attributes that are set
unfoldable mutual
  pub create_obj_by_type : Json → Value
  create_obj_by_type null = none_value
  create_obj_by_type (boolean b) = bool_value b
  create_obj_by_type (number n) = number_value n
  create_obj_by_type (string s) = text_value s
  create_obj_by_type (array items) = list_value (create_items items)
  create_obj_by_type (object members) = holder (set_members members bare)

  pub create_items : Items → Values
  create_items nil = nothing
  create_items (item j items) = value (create_obj_by_type j) (create_items items)

  pub set_members : Members → Attributes → Attributes
  set_members end attributes = attributes
  set_members (member name j members) attributes =
      set_members members (set_attribute name (create_obj_by_type j) attributes)
