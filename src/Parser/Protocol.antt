-- ===== src/Parser/Protocol.antt =====
-- parser/grammar/messagedata.hpp, message.hpp and protocoldescription.hpp, and parser/parse.cpp.
use building_programming_lan.Prelude.{suc, Option, none, some, List, [], ◌∷◌, length, if◌then◌else◌}
use building_programming_lan.Bytes.{Bytes, eq_bytes, codes}
use building_programming_lan.Syntax.{
  IdentifierReference, TypeTree, type_tree, MessageData, MessageSequence, no_part, Message,
  ProtocolDescription,
}
use building_programming_lan.Parser.{
  Token, message_token, parts_token, key_value_separator, statement_end, Tokens, Parse, matched,
  no_match, ◌>>>◌, take_token, maybe, many, at_least_one,
}
use building_programming_lan.Parser.Types.{an_identifier, a_string, emplace_all, parse_type}
use building_programming_lan.Parser.Parts.{
  a_curly_open, a_curly_close, identifier_named, parse_sequence, parse_part,
}

unfoldable pub a_colon : Token → Option (Unit {0})
a_colon key_value_separator = some tt
a_colon _ = none

unfoldable pub a_semicolon : Token → Option (Unit {0})
a_semicolon statement_end = some tt
a_semicolon _ = none

unfoldable pub keyword_message : Token → Option (Unit {0})
keyword_message message_token = some tt
keyword_message _ = none

unfoldable pub keyword_parts : Token → Option (Unit {0})
keyword_parts parts_token = some tt
keyword_parts _ = none

abbrev pub DataPair : Type 0
DataPair = Bytes × TypeTree

-- MessageDataPair
unfoldable pub parse_data_pair : Tokens → Parse DataPair
unfolding take_token an_identifier a_colon parse_type a_semicolon
parse_data_pair ts = take_token an_identifier ts >>> λ name t₁. take_token a_colon t₁ >>> λ _ t₂.
    parse_type (suc (length t₂)) t₂ >>> λ t t₃.
    take_token a_semicolon t₃ >>> λ _ left. matched (name, t) left

-- MessageData
unfoldable pub parse_data : Tokens → Parse MessageData
unfolding take_token identifier_named a_colon a_curly_open at_least_one many parse_data_pair
    a_curly_close emplace_all
parse_data ts = take_token (identifier_named (codes "data")) ts >>> λ _ t₁.
    take_token a_colon t₁ >>> λ _ t₂. take_token a_curly_open t₂ >>> λ _ t₃.
    at_least_one (many (suc (length t₃)) parse_data_pair t₃) >>> λ fields t₄.
    take_token a_curly_close t₄ >>> λ _ left. matched (emplace_all fields []) left

-- MessageParts
unfoldable pub parse_parts : Tokens → Parse MessageSequence
unfolding take_token keyword_parts a_curly_open parse_sequence parse_part a_curly_close
parse_parts ts = take_token keyword_parts ts >>> λ _ t₁. take_token a_curly_open t₁ >>> λ _ t₂.
    parse_sequence (parse_part (suc (length t₂))) t₂ >>> λ ps t₃.
    take_token a_curly_close t₃ >>> λ _ left. matched ps left

unfoldable pub name_of_type : TypeTree → IdentifierReference
name_of_type (type_tree name parameters) = name

-- The last attribute of this name.
unfoldable pub attribute : Bytes → List DataPair → Option IdentifierReference
unfolding eq_bytes name_of_type
attribute name [] = none
attribute name ((n, t) ∷ rest) = elim (attribute name rest) [
  | some id ↦ some id
  | none ↦ if eq_bytes n name then some (name_of_type t) else none
]

unfoldable pub seen_all :
    MessageData
    → MessageSequence
    → Option IdentifierReference
    → Option IdentifierReference
    → Option IdentifierReference
    → Tokens
    → Parse Message
seen_all fields ps (some w) (some t) (some a) left =
    matched (record { when = w; then_state = t; agent = a; data_fields = some fields; parts = ps })
      left
seen_all fields ps _ _ _ left = no_match

-- `match` of Message, at its closing brace.
unfoldable pub finish_message :
    List DataPair → MessageData → MessageSequence → Tokens → Parse Message
unfolding take_token a_curly_close seen_all attribute
finish_message attributes fields ps ts = take_token a_curly_close ts >>> λ _ left.
    seen_all fields ps (attribute (codes "when") attributes) (attribute (codes "then") attributes)
      (attribute (codes "agent") attributes) left

-- A message without data has no parts.
unfoldable pub message_body : List DataPair → Option MessageData → Tokens → Parse Message
unfolding finish_message parse_parts
message_body attributes none ts = finish_message attributes [] no_part ts
message_body attributes (some fields) ts =
    parse_parts ts >>> λ ps rest. finish_message attributes fields ps rest

-- Message, with its name.
unfoldable pub parse_message : Tokens → Parse (Bytes × Message)
unfolding take_token keyword_message a_string a_curly_open at_least_one many parse_data_pair maybe
    parse_data message_body
parse_message ts = take_token keyword_message ts >>> λ _ t₁. take_token a_string t₁ >>> λ name t₂.
    take_token a_curly_open t₂ >>> λ _ t₃.
    at_least_one (many (suc (length t₃)) parse_data_pair t₃) >>> λ attributes t₄.
    maybe (parse_data t₄) t₄ >>> λ fields t₅.
    message_body attributes fields t₅ >>> λ message left. matched (name, message) left

-- ProtocolDescription
unfoldable pub parse_protocol : Tokens → Parse ProtocolDescription
unfolding at_least_one many parse_message emplace_all
parse_protocol ts = at_least_one (many (suc (length ts)) parse_message ts) >>> λ messages left.
    matched (emplace_all messages []) left

-- `parse`: the whole input is a protocol.
unfoldable pub whole : Parse ProtocolDescription → Option ProtocolDescription
whole (matched p []) = some p
whole _ = none

unfoldable pub parse : Tokens → Option ProtocolDescription
unfolding whole parse_protocol
parse ts = whole (parse_protocol ts)
