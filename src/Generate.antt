-- ===== src/Generate.antt =====
-- generate.cpp, down to the actions of a transition: the operations that read or write the data of a
-- message. A function that returns a `std::optional` gives `none` for `std::nullopt`, and a fault
-- where `std::get` throws or a null pointer is followed.
pub mod Visit
pub mod States
pub mod Supplied
pub mod Analyzed
use building_programming_lan.Prelude.{Bool, true, Option, none, some, List, [], ◌∷◌, if◌then◌else◌}
use building_programming_lan.Bytes.{Bytes, eq_bytes, codes}
use building_programming_lan.Outcome.{
  Outcome, ok, fault, ◌>>?◌, bad_variant_access, null_dereference,
}
use building_programming_lan.Value.{
  Operation, OpTreeNode, node, OpTreeNodes, leaf, child, optree, dynamic_list, generate_list,
  int_to_ascii, op_sequence, function_call_for_each, lexical_pad_get, lexical_pad_set,
  lexical_pad_initialize, dictionary_initialize, dictionary_set, dictionary_get,
  read_int_from_ascii, read_octets_until_terminator, read_static_octets,
  terminate_list_if_read_ahead, write_octets, write_octets_with_escape, write_static_octets,
  static_callable,
}
use building_programming_lan.Syntax.{
  IdentifierReference, identifier, identifier_member, identifier_name, identifier_member?, TypeTree,
  TypeParameterValue, type_parameter, type_name, type_parameters, find_parameter, MessageData,
  find_data,
}
use building_programming_lan.Sema.{
  EscapeInfo, Action, action_read_static_octets, action_read_octets_until_terminator,
  action_write_from_identifier, action_write_static_octets, action_loop, Actions, no_action, action,
}

pub data TransitionType : Type 0 where
  read write : TransitionType

-- ExtractTypeClosure
abbrev pub GetType : Type 0
GetType = Bytes → Outcome (Option TypeTree)

-- GenerateOpTreeValueFromType
abbrev pub GenerateValue : Type 0
GenerateValue = TypeTree → Option OpTreeNode

-- An operation with no child, with one and with two.
abbrev pub node_0 : Operation → OpTreeNode
node_0 op = node op leaf

abbrev pub node_1 : Operation → OpTreeNode → OpTreeNode
node_1 op a = node op (child a leaf)

abbrev pub node_2 : Operation → OpTreeNode → OpTreeNode → OpTreeNode
node_2 op a b = node op (child a (child b leaf))

-- The type of a parameter's value, if it is one.
unfoldable pub held_type : TypeParameterValue → Option TypeTree
held_type (type_parameter t) = some t
held_type _ = none

abbrev pub element_type_name : Bytes
element_type_name = codes "element_type"

-- The closure that `create_get_type_wrapper` returns.
unfoldable pub wrapper : GetType → Bytes → TypeParameterValue → GetType
unfolding eq_bytes held_type
wrapper get_type variable element_type name =
    if eq_bytes name variable then ok (held_type element_type) else get_type name

unfoldable pub wrap_found : GetType → Bytes → Option TypeParameterValue → Outcome (Option GetType)
unfolding wrapper
wrap_found get_type variable none = ok none
wrap_found get_type variable (some v) = ok (some (wrapper get_type variable v))

unfoldable pub create_get_type_wrapper : GetType → Bytes → Bytes → Outcome (Option GetType)
unfolding wrap_found find_parameter type_parameters
create_get_type_wrapper get_type variable collection = get_type collection >>? λ t.
    wrap_found get_type variable (find_parameter element_type_name (type_parameters t))

-- `extract_argument_names`, on a pointer that is not null and on one that may be.
unfoldable pub keys {ℓ} : {A : Type ℓ} → List (Bytes × A) → List Bytes
keys [] = []
keys ((n, a) ∷ rest) = n ∷ keys rest

unfoldable pub extract_argument_names : Option MessageData → Option (List Bytes)
unfolding keys
extract_argument_names none = none
extract_argument_names (some data_fields) = some (keys data_fields)

unfoldable pub extract_type : Option MessageData → Bytes → Outcome (Option TypeTree)
unfolding find_data
extract_type none name = fault null_dereference
extract_type (some data_fields) name = ok (find_data name data_fields)

-- The parameter that was found, through `std::get`.
unfoldable pub member_type : Option TypeParameterValue → Outcome (Option TypeTree)
member_type none = ok none
member_type (some (type_parameter t)) = ok (some t)
member_type (some _) = fault bad_variant_access

unfoldable pub set_value :
    Bytes → OpTreeNode → TypeTree → Option OpTreeNode → Outcome (Option (OpTreeNode × TypeTree))
set_value name current_access t none = ok none
set_value name current_access t (some v) =
    ok (some (node_2 (dictionary_set name) current_access v, t))

-- The end of the path of members.
unfoldable pub last_access :
    Bytes → OpTreeNode → Option GenerateValue → TypeTree → Outcome (Option (OpTreeNode × TypeTree))
unfolding set_value
last_access name current_access none t = ok (some (node_1 (dictionary_get name) current_access, t))
last_access name current_access (some value_to_write) t =
    set_value name current_access t (value_to_write t)

abbrev pub tuple_name : Bytes
tuple_name = codes "tuple"

unfoldable pub recursive_variable_access :
    TypeTree
    → IdentifierReference
    → OpTreeNode
    → Option GenerateValue
    → Outcome (Option (OpTreeNode × TypeTree))
unfolding member_type find_parameter type_parameters last_access eq_bytes type_name
recursive_variable_access t (identifier name) current_access value_to_write =
    member_type (find_parameter name (type_parameters t)) >>? λ m.
    last_access name current_access value_to_write m
recursive_variable_access t (identifier_member name member) current_access value_to_write =
    member_type (find_parameter name (type_parameters t)) >>? λ m.
    let rest =
      recursive_variable_access m member (node_1 (dictionary_get name) current_access)
        value_to_write in
    if eq_bytes (type_name m) tuple_name then rest else ok none

abbrev pub write_operation : Option EscapeInfo → Operation
write_operation none = write_octets
write_operation (some e) = write_octets_with_escape e.character e.sequence

unfoldable pub write_octets_from_value :
    TypeTree → OpTreeNode → Option EscapeInfo → Option OpTreeNode
unfolding eq_bytes type_name
write_octets_from_value t v escape =
    if eq_bytes (type_name t) (codes "int")
    then some (node_1 (write_operation escape) (node_1 int_to_ascii v))
    else if eq_bytes (type_name t) (codes "str")
    then some (node_1 (write_operation escape) v)
    else none

abbrev pub read_operation : Bytes → Option EscapeInfo → Operation
read_operation terminator none = read_octets_until_terminator terminator none
read_operation terminator (some e) =
    read_octets_until_terminator terminator (some (e.character, e.sequence))

unfoldable pub read_value_from_octets : Bytes → Option EscapeInfo → GenerateValue
unfolding eq_bytes type_name
read_value_from_octets terminator escape t =
    if eq_bytes (type_name t) (codes "int")
    then some (node_1 read_int_from_ascii (node_0 (read_operation terminator escape)))
    else if eq_bytes (type_name t) (codes "str")
    then some (node_0 (read_operation terminator escape))
    else none
