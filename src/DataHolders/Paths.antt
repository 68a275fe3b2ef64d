-- ===== src/DataHolders/Paths.antt =====
-- Reading the attributes of a holder is reading the JSON.
use azure_shell.Prelude.{
  ℕ, zero, suc, ◌≡◌, refl, ◌∙◌, Bool, true, false, Option, none, some, List, [], ◌∷◌, arith,
  if◌then◌else◌,
}
use azure_shell.Text.{Text, eq, eq_refl, eq_sound}
use azure_shell.DataHolders.{
  Json, null, boolean, number, string, array, object, Items, nil, item, Members, end, member, Value,
  holder, list_value, Values, nothing, value, Attributes, bare, attribute, set_attribute,
  get_attribute, create_obj_by_type, create_items, set_members,
}

-- one step into a value: to the attribute or the key of a name, or to the element of an index
pub data Step : Type 0 where
  name_step : Text → Step
  index_step : ℕ → Step

abbrev pub later : Option Json → Option Json → Option Json
later (some j) other = some j
later none other = other

-- the last member of a name
abbrev pub last_member : Text → Members → Option Json
last_member name end = none
last_member name (member other j members) =
    later (last_member name members) (if eq other name then some j else none)

abbrev pub nth_item : ℕ → Items → Option Json
nth_item i nil = none
nth_item zero (item j items) = some j
nth_item (suc i) (item j items) = nth_item i items

abbrev pub nth_value : ℕ → Values → Option Value
nth_value i nothing = none
nth_value zero (value v values) = some v
nth_value (suc i) (value v values) = nth_value i values

abbrev pub into_json : Step → Json → Option Json
into_json (name_step name) (object members) = last_member name members
into_json (index_step i) (array items) = nth_item i items
into_json _ _ = none

abbrev pub into_value : Step → Value → Option Value
into_value (name_step name) (holder attributes) = get_attribute name attributes
into_value (index_step i) (list_value values) = nth_value i values
into_value _ _ = none

-- the value at the end of a path, where the path leads somewhere
abbrev pub follow {ℓ} : {A : Type ℓ} → (Step → A → Option A) → List Step → A → Option A
follow into [] x = some x
follow into (step ∷ path) x = elim (into step x) [ none ↦ none | some y ↦ follow into path y ]

abbrev pub converted : Option Json → Option Value
converted none = none
converted (some j) = some (create_obj_by_type j)

get_attribute-set :
    (name other : Text) (v : Value) (attributes : Attributes)
    → get_attribute name (set_attribute other v attributes)
      ≡ (if eq other name then some v else get_attribute name attributes)
unfolding get_attribute set_attribute
get_attribute-set name other v bare = refl
get_attribute-set name other v (attribute a w attributes) = ground (
  arith,
  get_attribute-set name other v attributes,
  eq_sound a other,
  eq_sound other name,
  eq_refl a,
)

abbrev or_else : Option Json → Option Value → Option Value
or_else none v = v
or_else (some j) v = some (create_obj_by_type j)

get_attribute-members :
    (name : Text) (members : Members) (attributes : Attributes)
    → get_attribute name (set_members members attributes)
      ≡ or_else (last_member name members) (get_attribute name attributes)
unfolding create_obj_by_type
get_attribute-members name end attributes = refl
get_attribute-members name (member other j members) attributes =
    get_attribute-members name members (set_attribute other (create_obj_by_type j) attributes)
    ∙ rw (get_attribute-set name other (create_obj_by_type j) attributes)
        (chosen (last_member name members) (eq other name))
  where
    chosen :
        (o : Option Json) (b : Bool)
        → or_else o (if b then some (create_obj_by_type j) else get_attribute name attributes)
          ≡ or_else (later o (if b then some j else none)) (get_attribute name attributes)
    chosen (some k) b = refl
    chosen none true = refl
    chosen none false = refl

nth_value-create :
    (i : ℕ) (items : Items) → nth_value i (create_items items) ≡ converted (nth_item i items)
unfolding create_obj_by_type
nth_value-create i nil = refl
nth_value-create zero (item j items) = refl
nth_value-create (suc i) (item j items) = nth_value-create i items

or_else-none : (o : Option Json) → or_else o none ≡ converted o
or_else-none none = refl
or_else-none (some j) = refl

into_value-create :
    (step : Step) (j : Json) → into_value step (create_obj_by_type j) ≡ converted (into_json step j)
unfolding create_obj_by_type
into_value-create (name_step name) null = refl
into_value-create (name_step name) (boolean b) = refl
into_value-create (name_step name) (number n) = refl
into_value-create (name_step name) (string s) = refl
into_value-create (name_step name) (array items) = refl
into_value-create (name_step name) (object members) =
    unfold get_attribute in
    (get_attribute-members name members bare ∙ or_else-none (last_member name members))
into_value-create (index_step i) null = refl
into_value-create (index_step i) (boolean b) = refl
into_value-create (index_step i) (number n) = refl
into_value-create (index_step i) (string s) = refl
into_value-create (index_step i) (array items) = nth_value-create i items
into_value-create (index_step i) (object members) = refl

-- Reading any path of names and indices in the object that is made of JSON gives what is made of the
-- part of the JSON at that path, the last member of a name where there are several; and an attribute
-- or an element is missing exactly where the JSON has none.
pub follow-create :
    (path : List Step) (j : Json)
    → follow into_value path (create_obj_by_type j) ≡ converted (follow into_json path j)
follow-create [] j = refl
follow-create (step ∷ path) j =
    rw (into_value-create step j, follow) (rest (λ k. follow-create path k) (into_json step j))
  where
    rest :
        ((k : Json)
          → follow into_value path (create_obj_by_type k) ≡ converted (follow into_json path k))
        → (o : Option Json)
        → elim (converted o) [ none ↦ none | some y ↦ follow into_value path y ]
          ≡ converted (elim o [ none ↦ none | some y ↦ follow into_json path y ])
    rest ih none = refl
    rest ih (some k) = ih k
