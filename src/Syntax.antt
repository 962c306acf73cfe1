-- ===== src/Syntax.antt =====
-- parser/tree: the tree of a protocol description that the parser builds and that the semantic
-- analysis and the generator read. A `std::map` is an association list in the order of its keys.
use building_programming_lan.Prelude.{Bool, Option, none, some, List, [], ◌∷◌, if◌then◌else◌}
use building_programming_lan.Prelude.Int.{ℤ}
use building_programming_lan.Bytes.{Bytes, eq_bytes}

-- A name, with or without a member.
pub data IdentifierReference : Type 0 where
  identifier : Bytes → IdentifierReference
  identifier_member : Bytes → IdentifierReference → IdentifierReference

unfoldable pub identifier_name : IdentifierReference → Bytes
identifier_name (identifier name) = name
identifier_name (identifier_member name member) = name

unfoldable pub identifier_member? : IdentifierReference → Option IdentifierReference
identifier_member? (identifier name) = none
identifier_member? (identifier_member name member) = some member

-- `Type` with its parameters.
mutual
  pub data TypeTree : Type 0 where
    type_tree : IdentifierReference → TypeParameterMap → TypeTree

  pub data TypeParameterValue : Type 0 where
    boolean_literal : Bool → TypeParameterValue
    integer_literal : ℤ → TypeParameterValue
    string_literal : Bytes → TypeParameterValue
    type_parameter : TypeTree → TypeParameterValue

  pub data TypeParameterMap : Type 0 where
    no_parameter : TypeParameterMap
    parameter : Bytes → TypeParameterValue → TypeParameterMap → TypeParameterMap

-- `type->name->name` and `type->parameters`
unfoldable pub type_name : TypeTree → Bytes
unfolding identifier_name
type_name (type_tree name parameters) = identifier_name name

unfoldable pub type_parameters : TypeTree → TypeParameterMap
type_parameters (type_tree name parameters) = parameters

-- `parameters->find(name)`
unfoldable pub find_parameter : Bytes → TypeParameterMap → Option TypeParameterValue
unfolding eq_bytes
find_parameter name no_parameter = none
find_parameter name (parameter n v rest) =
    if eq_bytes n name then some v else find_parameter name rest

abbrev pub MessageData : Type 0
MessageData = List (Bytes × TypeTree)

-- `data->find(name)`
unfoldable pub find_data : Bytes → MessageData → Option TypeTree
unfolding eq_bytes
find_data name [] = none
find_data name ((n, t) ∷ rest) = if eq_bytes n name then some t else find_data name rest

-- What appears in a value, and what stands for it on the wire.
pub record EscapeReplacement : Type 0 where
  pub character : Bytes
  pub sequence : Bytes

pub data TokenPart : Type 0 where
  token_literal : Bytes → TokenPart
  token_identifier : IdentifierReference → TokenPart

pub record TokenSequence : Type 0 where
  pub tokens : List TokenPart
  pub terminator : Option Bytes
  pub escape : Option EscapeReplacement

-- `MessageSequence` is a vector of parts; a loop holds its variable, its collection, its block and
-- the terminator that its options name.
mutual
  pub data MessagePart : Type 0 where
    token_sequence : TokenSequence → MessagePart
    terminator : Bytes → MessagePart
    message_for_loop :
        IdentifierReference → IdentifierReference → MessageSequence → Option Bytes → MessagePart

  pub data MessageSequence : Type 0 where
    no_part : MessageSequence
    part : MessagePart → MessageSequence → MessageSequence

-- `data` is null where the message declares none.
pub record Message : Type 0 where
  pub when : IdentifierReference
  pub then_state : IdentifierReference
  pub agent : IdentifierReference
  pub data_fields : Option MessageData
  pub parts : MessageSequence

abbrev pub ProtocolDescription : Type 0
ProtocolDescription = List (Bytes × Message)
