-- ===== src/Codegen.antt =====
-- codegen/typemapping.cpp: the C++ type of a type of the description, and the C++ identifiers of messages
-- and states. The functions of <cctype> that depend on the locale are parameters.
pub mod Names
pub mod Info
pub mod Unique
use building_programming_lan.Prelude.{
  ℕ, Bool, true, false, ◌&&◌, Option, none, some, List, [], ◌∷◌, ◌++◌, if◌then◌else◌, ◌==◌,
}
use building_programming_lan.Prelude.Int.{ℤ, pos, negsuc}
use building_programming_lan.Bytes.{Bytes, codes, eq_bytes}
use building_programming_lan.Syntax.{
  identifier_name, TypeTree, type_tree, TypeParameterValue, boolean_literal, integer_literal,
  string_literal, type_parameter, TypeParameterMap, no_parameter, parameter, find_parameter,
}

-- `isalnum`, `isdigit` and `toupper`
pub record CharacterClasses : Type 0 where
  pub is_alnum : ℕ → Bool
  pub is_digit : ℕ → Bool
  pub to_upper : ℕ → ℕ

pub record TypeMappingResult : Type 0 where
  pub cpp_type : Bytes
  pub auxiliary_definitions : Bytes
  pub is_custom_struct : Bool

-- `get_bool_param(params, name).value_or(otherwise)`
unfoldable pub get_bool_param : TypeParameterMap → Bytes → Bool → Bool
unfolding find_parameter
get_bool_param params name otherwise = elim (find_parameter name params) [
  | none ↦ otherwise
  | some (boolean_literal b) ↦ b
  | some (integer_literal _) ↦ otherwise
  | some (string_literal _) ↦ otherwise
  | some (type_parameter _) ↦ otherwise
]

-- `get_int_param(params, name).value_or(otherwise)`
unfoldable pub get_int_param : TypeParameterMap → Bytes → ℤ → ℤ
unfolding find_parameter
get_int_param params name otherwise = elim (find_parameter name params) [
  | none ↦ otherwise
  | some (boolean_literal _) ↦ otherwise
  | some (integer_literal i) ↦ i
  | some (string_literal _) ↦ otherwise
  | some (type_parameter _) ↦ otherwise
]

-- The width that the switch on `bits` takes; 32 is its default.
unfoldable pub int_width : ℤ → Bytes
int_width (negsuc n) = codes "32"
int_width (pos bits) =
    if bits == 8
    then codes "8"
    else if bits == 16
    then codes "16"
    else if bits == 64
    then codes "64"
    else codes "32"

unfoldable pub map_int_type : TypeParameterMap → TypeMappingResult
unfolding get_bool_param get_int_param int_width
map_int_type params = record {
  cpp_type =
      (if get_bool_param params (codes "unsigned") false then codes "uint" else codes "int")
      ++ int_width (get_int_param params (codes "bits") (pos 32))
      ++ codes "_t";
  auxiliary_definitions = [];
  is_custom_struct = false;
}

unfoldable pub map_str_type : TypeMappingResult
map_str_type = record {
  cpp_type = codes "std::string";
  auxiliary_definitions = [];
  is_custom_struct = false;
}

-- `map_array_type`, from the mapping of the type of the elements.
unfoldable pub map_array_type : Option TypeMappingResult → Option TypeMappingResult
map_array_type none = none
map_array_type (some element) = some (record {
  cpp_type = codes "std::vector<" ++ element.cpp_type ++ codes ">";
  auxiliary_definitions = element.auxiliary_definitions;
  is_custom_struct = false;
})

unfoldable pub struct_name : Bytes → Bytes
struct_name [] = codes "TupleData"
struct_name (c ∷ rest) = c ∷ rest

-- `nested_defs` and `struct_def`, from a field on.
pub record FieldDefinitions : Type 0 where
  pub nested : Bytes
  pub fields : Bytes

-- One round of the loop over the fields.
unfoldable pub map_field :
    Bytes → Option TypeMappingResult → Option FieldDefinitions → Option FieldDefinitions
map_field field_name none later = none
map_field field_name (some mapping) none = none
map_field field_name (some mapping) (some later) = some (record {
  nested = elim (mapping.auxiliary_definitions) [
    | [] ↦ later.nested
    | c ∷ rest ↦ (c ∷ rest) ++ codes "\n" ++ later.nested
  ];
  fields =
      codes "    " ++ mapping.cpp_type ++ codes " " ++ field_name ++ codes ";\n" ++ later.fields;
})

-- `map_tuple_type`, from what its loop gives.
unfoldable pub map_tuple_type :
    Bytes → TypeParameterMap → Option FieldDefinitions → Option TypeMappingResult
unfolding struct_name
map_tuple_type prefix no_parameter definitions = none
map_tuple_type prefix (parameter _ _ _) none = none
map_tuple_type prefix (parameter _ _ _) (some definitions) = some (record {
  cpp_type = struct_name prefix;
  auxiliary_definitions =
      definitions.nested
      ++ codes "struct "
      ++ struct_name prefix
      ++ codes " {\n"
      ++ definitions.fields
      ++ codes "};\n";
  is_custom_struct = true;
})

unfoldable mutual
  unfolding map_int_type map_str_type map_array_type map_tuple_type struct_name map_field

  pub type_to_cpp : TypeTree → Bytes → Option TypeMappingResult
  type_to_cpp (type_tree name parameters) prefix =
      let element = map_element parameters (prefix ++ codes "Element") in
      let definitions = map_fields parameters (struct_name prefix) in
      if eq_bytes (identifier_name name) (codes "int")
      then some (map_int_type parameters)
      else if eq_bytes (identifier_name name) (codes "str")
      then some map_str_type
      else if eq_bytes (identifier_name name) (codes "array")
      then map_array_type element
      else if eq_bytes (identifier_name name) (codes "tuple")
      then map_tuple_type prefix parameters definitions
      else none

  -- The mapping of the parameter `element_type`.
  pub map_element : TypeParameterMap → Bytes → Option TypeMappingResult
  map_element no_parameter prefix = none
  map_element (parameter name value rest) prefix =
      let found = map_value value prefix in
      let later = map_element rest prefix in
      if eq_bytes name (codes "element_type") then found else later

  pub map_value : TypeParameterValue → Bytes → Option TypeMappingResult
  map_value (boolean_literal _) prefix = none
  map_value (integer_literal _) prefix = none
  map_value (string_literal _) prefix = none
  map_value (type_parameter t) prefix = type_to_cpp t prefix

  -- The loop over the fields; a parameter that is not a type is skipped.
  pub map_fields : TypeParameterMap → Bytes → Option FieldDefinitions
  map_fields no_parameter outer = some (record { nested = []; fields = [] })
  map_fields (parameter name (boolean_literal _) rest) outer = map_fields rest outer
  map_fields (parameter name (integer_literal _) rest) outer = map_fields rest outer
  map_fields (parameter name (string_literal _) rest) outer = map_fields rest outer
  map_fields (parameter name (type_parameter t) rest) outer =
      map_field name (type_to_cpp t (outer ++ codes "_" ++ name)) (map_fields rest outer)

module _ (classes : CharacterClasses) where
  -- The loop of `message_name_to_identifier`
  unfoldable pub message_chars : Bool → Bytes → Bytes
  message_chars capitalize_next [] = []
  message_chars capitalize_next (c ∷ rest) =
      let capitalized = message_chars true rest in
      let plain = message_chars false rest in
      let skipped = message_chars capitalize_next rest in
      if c == 32
      then capitalized
      else if c == 45
      then capitalized
      else if c == 95
      then capitalized
      else if classes.is_alnum c
      then (if capitalize_next then classes.to_upper c else c) ∷ plain
      else skipped

  unfoldable pub message_name_to_identifier : Bytes → Bytes
  unfolding message_chars
  message_name_to_identifier message_name = message_chars true message_name

  -- `isalnum(c) || c == '_'`
  unfoldable pub identifier_char : ℕ → Bool
  identifier_char c = if classes.is_alnum c then true else c == 95

  unfoldable pub state_chars : Bytes → Bytes
  unfolding identifier_char
  state_chars [] = []
  state_chars (c ∷ rest) =
      let kept = state_chars rest in if identifier_char c then c ∷ kept else kept

  -- An underscore before a digit at the front
  unfoldable pub not_digit_first : Bytes → Bytes
  not_digit_first [] = []
  not_digit_first (c ∷ rest) = if classes.is_digit c then 95 ∷ c ∷ rest else c ∷ rest

  unfoldable pub state_name_to_identifier : Bytes → Bytes
  unfolding state_chars not_digit_first
  state_name_to_identifier state_name = not_digit_first (state_chars state_name)
