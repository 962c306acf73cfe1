-- ===== src/Parser/Parts.antt =====
-- parser/grammar/tokenparts.hpp and messagesequence.hpp: token sequences with their options, terminators,
-- loops and the sequences of these.
use building_programming_lan.Prelude.{
  ℕ, zero, suc, Option, none, some, List, [], ◌∷◌, length, if◌then◌else◌,
}
use building_programming_lan.Bytes.{Bytes, eq_bytes, codes}
use building_programming_lan.Syntax.{
  EscapeReplacement, TokenPart, token_literal, token_identifier, TokenSequence, MessagePart,
  token_sequence, terminator, message_for_loop, MessageSequence, no_part, part,
}
use building_programming_lan.Parser.{
  Token, identifier_token, for_token, in_token, terminator_token, tokens_token, comma,
  curly_brace_close, curly_brace_open, Tokens, Parse, matched, no_match, out_of_fuel, ◌>>>◌,
  take_token, maybe, either, many, many_separated, at_least_one,
}
use building_programming_lan.Parser.Types.{
  an_equal, an_angle_open, an_angle_close, a_string, parse_identifier, emplace_all,
}

unfoldable pub a_comma : Token → Option (Unit {0})
a_comma comma = some tt
a_comma _ = none

unfoldable pub a_curly_open : Token → Option (Unit {0})
a_curly_open curly_brace_open = some tt
a_curly_open _ = none

unfoldable pub a_curly_close : Token → Option (Unit {0})
a_curly_close curly_brace_close = some tt
a_curly_close _ = none

-- The keywords.
unfoldable pub keyword_tokens : Token → Option (Unit {0})
keyword_tokens tokens_token = some tt
keyword_tokens _ = none

unfoldable pub keyword_terminator : Token → Option (Unit {0})
keyword_terminator terminator_token = some tt
keyword_terminator _ = none

unfoldable pub keyword_for : Token → Option (Unit {0})
keyword_for for_token = some tt
keyword_for _ = none

unfoldable pub keyword_in : Token → Option (Unit {0})
keyword_in in_token = some tt
keyword_in _ = none

-- An identifier of this name, as `conditional_partial_match` tests it.
unfoldable pub identifier_named : Bytes → Token → Option Bytes
unfolding eq_bytes
identifier_named wanted (identifier_token name) = if eq_bytes name wanted then some name else none
identifier_named wanted _ = none

-- TokenPart
unfoldable pub parse_token_part : Tokens → Parse TokenPart
unfolding either take_token a_string parse_identifier
parse_token_part ts =
    either (take_token a_string ts >>> λ s rest. matched (token_literal s) rest)
      (parse_identifier (suc (length ts)) ts >>> λ id rest. matched (token_identifier id) rest)

-- EscapeReplacement
unfoldable pub parse_escape_replacement : Tokens → Parse EscapeReplacement
unfolding take_token identifier_named an_angle_open a_string a_comma an_angle_close
parse_escape_replacement ts = take_token (identifier_named (codes "replace")) ts >>> λ _ t₁.
    take_token an_angle_open t₁ >>> λ _ t₂. take_token a_string t₂ >>> λ c t₃.
    take_token a_comma t₃ >>> λ _ t₄. take_token a_string t₄ >>> λ s t₅.
    take_token an_angle_close t₅ >>> λ _ left. matched (record { character = c; sequence = s }) left

pub data TokenSequenceOptionValue : Type 0 where
  option_string : Bytes → TokenSequenceOptionValue
  option_escape : EscapeReplacement → TokenSequenceOptionValue

abbrev pub OptionsMap : Type 0
OptionsMap = List (Bytes × TokenSequenceOptionValue)

unfoldable pub parse_option_value : Tokens → Parse TokenSequenceOptionValue
unfolding either take_token a_string parse_escape_replacement
parse_option_value ts =
    either (take_token a_string ts >>> λ s rest. matched (option_string s) rest)
      (parse_escape_replacement ts >>> λ e rest. matched (option_escape e) rest)

-- The name of an option, which may be the keyword.
unfoldable pub option_name : Token → Option Bytes
option_name (identifier_token name) = some name
option_name terminator_token = some (codes "terminator")
option_name _ = none

-- TokenSequenceOption
unfoldable pub parse_option : Tokens → Parse (Bytes × TokenSequenceOptionValue)
unfolding take_token option_name an_equal parse_option_value
parse_option ts = take_token option_name ts >>> λ name rest. take_token an_equal rest >>> λ _ after.
    parse_option_value after >>> λ v left. matched (name, v) left

-- TokenSequenceOptions
unfoldable pub parse_options : Tokens → Parse OptionsMap
unfolding take_token an_angle_open many_separated at_least_one parse_option an_angle_close
    emplace_all
parse_options ts = take_token an_angle_open ts >>> λ _ rest.
    at_least_one (many_separated (suc (length rest)) parse_option rest) >>> λ os after.
    take_token an_angle_close after >>> λ _ left. matched (emplace_all os []) left

-- `opts.count(name)` and `opts.at(name)`
unfoldable pub find_option : Bytes → OptionsMap → Option TokenSequenceOptionValue
unfolding eq_bytes
find_option name [] = none
find_option name ((n, v) ∷ rest) = if eq_bytes n name then some v else find_option name rest

unfoldable pub as_string : Option TokenSequenceOptionValue → Option Bytes
as_string (some (option_string s)) = some s
as_string _ = none

unfoldable pub as_escape : Option TokenSequenceOptionValue → Option EscapeReplacement
as_escape (some (option_escape e)) = some e
as_escape _ = none

-- The two overloads of `match` of TokenSequence.
unfoldable pub sequence_with : Option OptionsMap → List TokenPart → TokenSequence
unfolding find_option as_string as_escape
sequence_with none parts = record { tokens = parts; terminator = none; escape = none }
sequence_with (some os) parts = record {
  tokens = parts;
  terminator = as_string (find_option (codes "terminator") os);
  escape = as_escape (find_option (codes "escape") os);
}

-- TokenSequence
unfoldable pub parse_token_sequence : Tokens → Parse TokenSequence
unfolding take_token keyword_tokens maybe parse_options a_curly_open many at_least_one
    parse_token_part a_curly_close sequence_with
parse_token_sequence ts = take_token keyword_tokens ts >>> λ _ t₁.
    maybe (parse_options t₁) t₁ >>> λ os t₂. take_token a_curly_open t₂ >>> λ _ t₃.
    at_least_one (many (suc (length t₃)) parse_token_part t₃) >>> λ parts t₄.
    take_token a_curly_close t₄ >>> λ _ left. matched (sequence_with os parts) left

-- Terminator
unfoldable pub parse_terminator : Tokens → Parse Bytes
unfolding take_token keyword_terminator a_curly_open a_string a_curly_close
parse_terminator ts = take_token keyword_terminator ts >>> λ _ t₁.
    take_token a_curly_open t₁ >>> λ _ t₂.
    take_token a_string t₂ >>> λ s t₃. take_token a_curly_close t₃ >>> λ _ left. matched s left

unfoldable pub sequence_of : List MessagePart → MessageSequence
sequence_of [] = no_part
sequence_of (p ∷ ps) = part p (sequence_of ps)

-- MessageSequence, with the parser of a part.
unfoldable pub parse_sequence : (Tokens → Parse MessagePart) → Tokens → Parse MessageSequence
unfolding many at_least_one sequence_of
parse_sequence parse_part ts =
    at_least_one (many (suc (length ts)) parse_part ts) >>> λ ps left. matched (sequence_of ps) left

-- What MessageForLoop goes on with after its options. With options nothing matches: the map of the
-- options is const, and the overloads take one that is not.
unfoldable pub without_options : Option OptionsMap → Tokens → Parse (Unit {0})
without_options none ts = matched tt ts
without_options (some os) ts = no_match

-- MessageForLoop
unfoldable pub parse_for_loop : (Tokens → Parse MessagePart) → Tokens → Parse MessagePart
unfolding take_token keyword_for maybe parse_options without_options parse_identifier keyword_in
    a_curly_open parse_sequence a_curly_close
parse_for_loop parse_part ts = take_token keyword_for ts >>> λ _ t₁.
    maybe (parse_options t₁) t₁ >>> λ os t₂. without_options os t₂ >>> λ _ t₃.
    parse_identifier (suc (length t₃)) t₃ >>> λ variable t₄. take_token keyword_in t₄ >>> λ _ t₅.
    parse_identifier (suc (length t₅)) t₅ >>> λ collection t₆.
    take_token a_curly_open t₆ >>> λ _ t₇. parse_sequence parse_part t₇ >>> λ block t₈.
    take_token a_curly_close t₈ >>> λ _ left.
    matched (message_for_loop variable collection block none) left

-- MessagePart
unfoldable pub parse_part : ℕ → Tokens → Parse MessagePart
unfolding either parse_token_sequence parse_terminator parse_for_loop
parse_part zero ts = out_of_fuel
parse_part (suc f) ts =
    either (parse_token_sequence ts >>> λ s rest. matched (token_sequence s) rest) (
      either (parse_terminator ts >>> λ s rest. matched (terminator s) rest)
        (parse_for_loop (parse_part f) ts))
