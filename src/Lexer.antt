-- ===== src/Lexer.antt =====
-- lexer/tokenize.cpp: the rules, what each pushes, and the loop over the matches. The library that matches
-- the patterns is a parameter, `lookup`: it gives the number of the rule, counted from 1, the text
-- that matched and the text that is left.
pub mod Literal
use building_programming_lan.Prelude.{
  ℕ, zero, suc, pred, ◌-◌, Bool, true, false, Option, none, some, List, [], ◌∷◌, ◌++◌, length, take,
  drop, get_elem?, if◌then◌else◌, ◌==◌,
}
use building_programming_lan.Prelude.Int.{ℤ, pos, in_int32}
use building_programming_lan.Bytes.{Bytes}
use building_programming_lan.Bytes.Decimal.{read_digits}
use building_programming_lan.Outcome.{Outcome, ok, fault, ◌>>?◌, signed_overflow, divergence}
use building_programming_lan.Parser.{
  Token, identifier_token, for_token, in_token, message_token, parts_token, terminator_token,
  tokens_token, integer_token, string_token, boolean_token, angle_bracket_close, angle_bracket_open,
  comma, dot, curly_brace_close, curly_brace_open, equal, key_value_separator, statement_end,
  Tokens,
}

-- The character that a backslash and `c` stand for.
unfoldable pub unescape_char : ℕ → ℕ
unescape_char c = if c == 110 then 10 else if c == 116 then 9 else if c == 114 then 13 else c

-- `unescape_string`; a backslash at the end stands for itself.
unfoldable pub unescape_string : Bytes → Bytes
unfolding unescape_char
unescape_string [] = []
unescape_string (c ∷ []) = c ∷ []
unescape_string (c ∷ d ∷ rest) = elim (c == 92) [
  | true ↦ unescape_char d ∷ unescape_string rest
  | false ↦ c ∷ unescape_string (d ∷ rest)
]

-- `std::atoi` of digits, whose value is undefined where an int cannot hold it.
unfoldable pub push_integer : Bytes → Outcome Tokens
unfolding read_digits
push_integer str =
    if in_int32 (pos (read_digits 0 str))
    then ok (integer_token (pos (read_digits 0 str)) ∷ [])
    else fault signed_overflow

-- The text between the quotes: `str.substr(1, str.length() - 2)`.
unfoldable pub push_string : Bytes → Outcome Tokens
unfolding unescape_string
push_string str = ok (string_token (unescape_string (take (length str - 2) (drop 1 str))) ∷ [])

abbrev pub push : Token → Bytes → Outcome Tokens
push t str = ok (t ∷ [])

-- `token_rules`: what the rules push, in their order. Comments and white space push nothing.
abbrev pub token_rules : List (Bytes → Outcome Tokens)
token_rules =
    push (boolean_token true)
    ∷ push (boolean_token false)
    ∷ push for_token
    ∷ push in_token
    ∷ push message_token
    ∷ push parts_token
    ∷ push terminator_token
    ∷ push tokens_token
    ∷ push_integer
    ∷ push_string
    ∷ push angle_bracket_close
    ∷ push angle_bracket_open
    ∷ push comma
    ∷ push curly_brace_close
    ∷ push curly_brace_open
    ∷ push equal
    ∷ push key_value_separator
    ∷ push statement_end
    ∷ push dot
    ∷ (λ str. ok [])
    ∷ (λ str. ok [])
    ∷ (λ str. ok (identifier_token str ∷ []))
    ∷ []

-- The result of `lexertl::lookup`.
pub data Lexed : Type 0 where
  end_of_input : Lexed
  unknown : Lexed
  lexed : ℕ → Bytes → Bytes → Lexed

unfoldable pub pushed : Option (Bytes → Outcome Tokens) → Bytes → Outcome Tokens
pushed none str = ok []
pushed (some rule) str = rule str

unfoldable pub append_tokens : Outcome Tokens → Outcome (Option Tokens) → Outcome (Option Tokens)
append_tokens (fault why) rest = fault why
append_tokens (ok ts) (fault why) = fault why
append_tokens (ok ts) (ok none) = ok none
append_tokens (ok ts) (ok (some us)) = ok (some (ts ++ us))

-- The loop, with fuel.
unfoldable pub lex : ℕ → (Bytes → Lexed) → Bytes → Outcome (Option Tokens)
unfolding append_tokens pushed
lex zero lookup input = fault divergence
lex (suc f) lookup input = elim (lookup input) [
  | end_of_input ↦ ok (some [])
  | unknown ↦ ok none
  | lexed id str rest ↦
      append_tokens (pushed (get_elem? token_rules (pred id)) str) (lex f lookup rest)
]

unfoldable pub tokenize : (Bytes → Lexed) → Bytes → Outcome (Option Tokens)
unfolding lex
tokenize lookup input = lex (suc (length input)) lookup input
