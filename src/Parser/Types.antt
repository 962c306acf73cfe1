-- ===== src/Parser/Types.antt =====
-- parser/grammar/identifier.hpp, literals.hpp and typeparameter.hpp: identifiers with members, and types
-- with parameters.
use building_programming_lan.Prelude.{
  ℕ, zero, suc, Bool, true, false, Option, none, some, List, [], ◌∷◌, length, ltb, ◌==◌,
  if◌then◌else◌,
}
use building_programming_lan.Prelude.Int.{ℤ}
use building_programming_lan.Bytes.{Bytes, eq_bytes}
use building_programming_lan.Syntax.{
  IdentifierReference, identifier, identifier_member, TypeTree, type_tree, TypeParameterValue,
  boolean_literal, integer_literal, string_literal, type_parameter, TypeParameterMap, no_parameter,
  parameter,
}
use building_programming_lan.Parser.{
  Token, identifier_token, integer_token, string_token, boolean_token, angle_bracket_close,
  angle_bracket_open, dot, equal, Tokens, Parse, matched, out_of_fuel, ◌>>>◌, take_token, maybe,
  either, many_separated, at_least_one,
}

-- The tokens that the overloads accept.
unfoldable pub an_identifier : Token → Option Bytes
an_identifier (identifier_token name) = some name
an_identifier _ = none

unfoldable pub a_dot : Token → Option (Unit {0})
a_dot dot = some tt
a_dot _ = none

unfoldable pub an_equal : Token → Option (Unit {0})
an_equal equal = some tt
an_equal _ = none

unfoldable pub an_angle_open : Token → Option (Unit {0})
an_angle_open angle_bracket_open = some tt
an_angle_open _ = none

unfoldable pub an_angle_close : Token → Option (Unit {0})
an_angle_close angle_bracket_close = some tt
an_angle_close _ = none

-- BooleanLiteral, IntegerLiteral and StringLiteral
unfoldable pub a_boolean : Token → Option Bool
a_boolean (boolean_token b) = some b
a_boolean _ = none

unfoldable pub an_integer : Token → Option ℤ
an_integer (integer_token i) = some i
an_integer _ = none

unfoldable pub a_string : Token → Option Bytes
a_string (string_token s) = some s
a_string _ = none

-- IdentifierReference, from the result of IdentifierMemberAccess.
unfoldable pub identifier_with : Bytes → Option IdentifierReference → IdentifierReference
identifier_with name none = identifier name
identifier_with name (some m) = identifier_member name m

unfoldable pub parse_identifier : ℕ → Tokens → Parse IdentifierReference
unfolding take_token maybe identifier_with an_identifier a_dot
parse_identifier zero ts = out_of_fuel
parse_identifier (suc f) ts = take_token an_identifier ts >>> λ name rest.
    maybe (take_token a_dot rest >>> λ _ after. parse_identifier f after) rest >>> λ m left.
    matched (identifier_with name m) left

-- `operator<` of strings.
unfoldable pub less_bytes : Bytes → Bytes → Bool
less_bytes [] [] = false
less_bytes [] (y ∷ ys) = true
less_bytes (x ∷ xs) [] = false
less_bytes (x ∷ xs) (y ∷ ys) = if x == y then less_bytes xs ys else ltb x y

-- `emplace` of a std::map: a key that is there keeps its value.
unfoldable pub emplace {ℓ} : {A : Type ℓ} → Bytes → A → List (Bytes × A) → List (Bytes × A)
unfolding eq_bytes less_bytes
emplace key a [] = (key, a) ∷ []
emplace key a ((k, b) ∷ rest) =
    let after = emplace key a rest in
    if eq_bytes k key
    then (k, b) ∷ rest
    else if less_bytes key k
    then (key, a) ∷ (k, b) ∷ rest
    else (k, b) ∷ after

-- The loop that fills a map.
unfoldable pub emplace_all {ℓ} :
    {A : Type ℓ} → List (Bytes × A) → List (Bytes × A) → List (Bytes × A)
unfolding emplace
emplace_all [] done = done
emplace_all ((key, a) ∷ rest) done = emplace_all rest (emplace key a done)

unfoldable pub parameter_map : List (Bytes × TypeParameterValue) → TypeParameterMap
parameter_map [] = no_parameter
parameter_map ((name, v) ∷ rest) = parameter name v (parameter_map rest)

-- TypeParameterValue, with the parser of a type.
unfoldable pub parse_value : (Tokens → Parse TypeTree) → Tokens → Parse TypeParameterValue
unfolding either take_token a_boolean a_string an_integer
parse_value type ts = either (type ts >>> λ t rest. matched (type_parameter t) rest) (
    either (take_token a_boolean ts >>> λ b rest. matched (boolean_literal b) rest) (
      either (take_token a_string ts >>> λ s rest. matched (string_literal s) rest)
        (take_token an_integer ts >>> λ i rest. matched (integer_literal i) rest)))

-- TypeParameter
unfoldable pub parse_parameter :
    (Tokens → Parse TypeTree) → Tokens → Parse (Bytes × TypeParameterValue)
unfolding parse_value take_token an_identifier an_equal
parse_parameter type ts = take_token an_identifier ts >>> λ name rest.
    take_token an_equal rest >>> λ _ after.
    parse_value type after >>> λ v left. matched (name, v) left

-- TypeParameters
unfoldable pub parse_parameters : (Tokens → Parse TypeTree) → Tokens → Parse TypeParameterMap
unfolding many_separated at_least_one parse_parameter take_token an_angle_open an_angle_close
    parameter_map emplace_all
parse_parameters type ts = take_token an_angle_open ts >>> λ _ rest.
    at_least_one (many_separated (suc (length rest)) (parse_parameter type) rest) >>> λ ps after.
    take_token an_angle_close after >>> λ _ left. matched (parameter_map (emplace_all ps [])) left

-- Type, whose parameters are optional.
unfoldable pub type_with : Bytes → Option TypeParameterMap → TypeTree
type_with name none = type_tree (identifier name) no_parameter
type_with name (some ps) = type_tree (identifier name) ps

unfoldable pub parse_type : ℕ → Tokens → Parse TypeTree
unfolding take_token maybe parse_parameters type_with an_identifier
parse_type zero ts = out_of_fuel
parse_type (suc f) ts = take_token an_identifier ts >>> λ name rest.
    maybe (parse_parameters (parse_type f) rest) rest >>> λ ps left.
    matched (type_with name ps) left
