-- ===== src/Parser.antt =====
-- lexer/token*.hpp and parser/support/recursiveparser.hpp: the tokens, and the ways in which a parser of
-- the grammar goes on. A parser returns what it matched with the tokens that are left.
pub mod Types
pub mod Parts
pub mod Protocol
pub mod Shorter
pub mod Yields
pub mod Filled
use building_programming_lan.Prelude.{ℕ, zero, suc, Bool, Option, none, some, List, [], ◌∷◌}
use building_programming_lan.Prelude.Int.{ℤ}
use building_programming_lan.Bytes.{Bytes}

pub data Token : Type 0 where
  identifier_token : Bytes → Token
  for_token in_token message_token parts_token terminator_token tokens_token : Token
  integer_token : ℤ → Token
  string_token : Bytes → Token
  boolean_token : Bool → Token
  angle_bracket_close angle_bracket_open comma dot curly_brace_close curly_brace_open : Token
  equal key_value_separator statement_end : Token

abbrev pub Tokens : Type 0
Tokens = List Token

-- ParseStateReturn; `out_of_fuel` marks a recursion that was cut off.
pub data Parse {ℓ} (A : Type ℓ) : Type ℓ where
  matched : A → Tokens → Parse A
  no_match : Parse A
  out_of_fuel : Parse A

-- What follows a match, which `recurse_one` and `partial_match` lead to.
infixl 5 ◌>>>◌
abbrev pub ◌>>>◌ {ℓ κ} : {A : Type ℓ} → {B : Type κ} → Parse A → (A → Tokens → Parse B) → Parse B
matched a rest >>> next = next a rest
no_match >>> next = no_match
out_of_fuel >>> next = out_of_fuel

-- `partial_match`: one token, of the alternatives that an overload accepts.
unfoldable pub take_token {ℓ} : {A : Type ℓ} → (Token → Option A) → Tokens → Parse A
take_token accept [] = no_match
take_token accept (t ∷ rest) = elim (accept t) [ none ↦ no_match | some a ↦ matched a rest ]

-- `recurse_maybe`
unfoldable pub maybe {ℓ} : {A : Type ℓ} → Parse A → Tokens → Parse (Option A)
maybe (matched a rest) ts = matched (some a) rest
maybe no_match ts = matched none ts
maybe out_of_fuel ts = out_of_fuel

-- `recurse_any`, of two: the second is tried where the first does not match.
unfoldable pub either {ℓ} : {A : Type ℓ} → Parse A → Parse A → Parse A
either (matched a rest) other = matched a rest
either no_match other = other
either out_of_fuel other = out_of_fuel

unfoldable pub prepend {ℓ} : {A : Type ℓ} → A → Parse (List A) → Parse (List A)
prepend a (matched xs rest) = matched (a ∷ xs) rest
prepend a no_match = no_match
prepend a out_of_fuel = out_of_fuel

-- `recurse_many`: as many as match.
unfoldable pub many {ℓ} : {A : Type ℓ} → ℕ → (Tokens → Parse A) → Tokens → Parse (List A)
unfolding prepend
many zero p ts = out_of_fuel
many (suc f) p ts = elim (p ts) [
  | matched a rest ↦ prepend a (many f p rest)
  | no_match ↦ matched [] ts
  | out_of_fuel ↦ out_of_fuel
]

-- The tokens after a separator.
unfoldable pub after_comma : Tokens → Option Tokens
after_comma (comma ∷ rest) = some rest
after_comma _ = none

-- `recurse_many` with a comma for separator. After a comma that no further element follows, the
-- tokens after the comma are left.
unfoldable pub many_separated {ℓ} : {A : Type ℓ} → ℕ → (Tokens → Parse A) → Tokens → Parse (List A)
unfolding prepend after_comma
many_separated zero p ts = out_of_fuel
many_separated (suc f) p ts = elim (p ts) [
  | matched a rest ↦ elim (after_comma rest) [
    | none ↦ matched (a ∷ []) rest
    | some more ↦ prepend a (many_separated f p more)
  ]
  | no_match ↦ matched [] ts
  | out_of_fuel ↦ out_of_fuel
]

-- What `match` takes: a vector of the one type, which an empty vector of nodes is not.
unfoldable pub at_least_one {ℓ} : {A : Type ℓ} → Parse (List A) → Parse (List A)
at_least_one (matched [] rest) = no_match
at_least_one p = p
