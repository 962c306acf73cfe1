-- ===== src/Parser/Shorter/Types.antt =====
-- parser/grammar/identifier.hpp and typeparameter.hpp: a match leaves fewer tokens, and the fuel is
-- enough where it is above the number of tokens.
use building_programming_lan.Prelude.{ℕ, zero, suc, ◌<◌, Option, length, arith}
use building_programming_lan.Syntax.{TypeTree}
use building_programming_lan.Parser.{
  Token, Tokens, Parse, matched, ◌>>>◌, take_token, maybe, many_separated, at_least_one,
}
use building_programming_lan.Parser.Types.{
  an_identifier, a_dot, an_equal, an_angle_open, an_angle_close, a_boolean, an_integer, a_string,
  parse_identifier, parse_value, parse_parameter, parse_parameters, parse_type,
}
use building_programming_lan.Parser.Shorter.{
  Shorter, Shorter-mono, Shorter-bind, Shorter-then, Shorter-maybe, Shorter-either,
  Shorter-at_least_one, Progresses, Shorter-many_separated,
}

-- One token that is the whole match.
pub Shorter-literal {ℓ κ} :
    {A : Type ℓ} {B : Type κ} (accept : Token → Option A) (ts : Tokens) (f : A → B)
    → Shorter (length ts) (take_token accept ts >>> λ a rest. matched (f a) rest)
Shorter-literal accept ts f = Shorter-then (length ts) accept ts _ λ a rest h. h

pub Shorter-identifier :
    (f : ℕ) (ts : Tokens) → length ts < f → Shorter (length ts) (parse_identifier f ts)
unfolding parse_identifier
Shorter-identifier zero ts h = absurd (omega arith)
Shorter-identifier (suc f) ts h = Shorter-then (length ts) an_identifier ts _ λ name rest k.
    Shorter-bind (suc (length rest)) (length ts)
      (maybe (take_token a_dot rest >>> λ _ after. parse_identifier f after) rest) _
      (Shorter-maybe _ rest (
        Shorter-then (length rest) a_dot rest _ λ d after l.
          Shorter-mono (length after) (length rest) (parse_identifier f after) (omega arith)
            (Shorter-identifier f after (omega arith))))
      λ m left l. omega arith

module _ (n : ℕ) (type : Tokens → Parse TypeTree) (progress : Progresses n type) where
  Shorter-value : Progresses n (parse_value type)
  unfolding parse_value
  Shorter-value ts h =
      Shorter-either (length ts) _ _
        (Shorter-bind (length ts) (length ts) (type ts) _ (progress ts h) λ t rest k. k)
        (Shorter-either (length ts) _ _ (Shorter-literal a_boolean ts _) (
          Shorter-either (length ts) _ _ (Shorter-literal a_string ts _)
            (Shorter-literal an_integer ts _)))

  Shorter-parameter : Progresses n (parse_parameter type)
  unfolding parse_parameter
  Shorter-parameter ts h = Shorter-then (length ts) an_identifier ts _ λ name rest k.
      Shorter-then (length ts) an_equal rest _ λ e after l.
        Shorter-bind (length after) (length ts) (parse_value type after) _
          (Shorter-value after (omega arith)) λ v left m. omega arith

  Shorter-parameters : Progresses n (parse_parameters type)
  unfolding parse_parameters
  Shorter-parameters ts h = Shorter-then (length ts) an_angle_open ts _ λ o rest k.
      Shorter-bind (suc (length rest)) (length ts)
        (at_least_one (many_separated (suc (length rest)) (parse_parameter type) rest)) _
        (Shorter-at_least_one (suc (length rest)) _ (
          Shorter-many_separated n (parse_parameter type) Shorter-parameter (suc (length rest)) rest
            (omega arith) (omega arith)))
        λ ps after l. Shorter-then (length ts) an_angle_close after _ λ c left m. omega arith

pub Shorter-type : (f : ℕ) → Progresses f (parse_type f)
unfolding parse_type
Shorter-type zero ts h = absurd (omega arith)
Shorter-type (suc f) ts h = Shorter-then (length ts) an_identifier ts _ λ name rest k.
    Shorter-bind (suc (length rest)) (length ts) (maybe (parse_parameters (parse_type f) rest) rest)
      _
      (Shorter-maybe _ rest
        (Shorter-parameters f (parse_type f) (Shorter-type f) rest (omega arith)))
      λ ps left l. omega arith
