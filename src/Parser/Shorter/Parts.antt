-- ===== src/Parser/Shorter/Parts.antt =====
-- parser/grammar/tokenparts.hpp and messagesequence.hpp: a match leaves fewer tokens, and the fuel is
-- enough.
use building_programming_lan.Prelude.{ℕ, zero, suc, ◌<◌, Option, none, some, length, arith}
use building_programming_lan.Bytes.{codes}
use building_programming_lan.Syntax.{MessagePart}
use building_programming_lan.Parser.{Tokens, Parse, maybe, many, many_separated, at_least_one}
use building_programming_lan.Parser.Types.{
  an_equal, an_angle_open, an_angle_close, a_string, parse_identifier,
}
use building_programming_lan.Parser.Parts.{
  a_comma, a_curly_open, a_curly_close, keyword_tokens, keyword_terminator, keyword_for, keyword_in,
  identifier_named, parse_token_part, parse_escape_replacement, OptionsMap, parse_option_value,
  option_name, parse_option, parse_options, parse_token_sequence, parse_terminator, parse_sequence,
  without_options, parse_for_loop, parse_part,
}
use building_programming_lan.Parser.Shorter.{
  Shorter, Shorter-bind, Shorter-then, Shorter-maybe, Shorter-either, Shorter-at_least_one,
  Progresses, Shorter-many, Shorter-many_separated,
}
use building_programming_lan.Parser.Shorter.Types.{Shorter-literal, Shorter-identifier}

Shorter-token_part : (ts : Tokens) → Shorter (length ts) (parse_token_part ts)
unfolding parse_token_part
Shorter-token_part ts = Shorter-either (length ts) _ _ (Shorter-literal a_string ts _) (
    Shorter-bind (length ts) (length ts) (parse_identifier (suc (length ts)) ts) _
      (Shorter-identifier (suc (length ts)) ts (omega arith)) λ id rest k. k)

Shorter-escape : (ts : Tokens) → Shorter (length ts) (parse_escape_replacement ts)
unfolding parse_escape_replacement
Shorter-escape ts = Shorter-then (length ts) (identifier_named (codes "replace")) ts _ λ a t₁ h₁.
    Shorter-then (length ts) an_angle_open t₁ _ λ b t₂ h₂.
      Shorter-then (length ts) a_string t₂ _ λ c t₃ h₃.
        Shorter-then (length ts) a_comma t₃ _ λ d t₄ h₄.
          Shorter-then (length ts) a_string t₄ _
            λ s t₅ h₅. Shorter-then (length ts) an_angle_close t₅ _ λ e left h₆. omega arith

Shorter-option_value : (ts : Tokens) → Shorter (length ts) (parse_option_value ts)
unfolding parse_option_value
Shorter-option_value ts = Shorter-either (length ts) _ _ (Shorter-literal a_string ts _) (
    Shorter-bind (length ts) (length ts) (parse_escape_replacement ts) _ (Shorter-escape ts)
      λ e rest k. k)

Shorter-option : (ts : Tokens) → Shorter (length ts) (parse_option ts)
unfolding parse_option
Shorter-option ts = Shorter-then (length ts) option_name ts _ λ name rest h.
    Shorter-then (length ts) an_equal rest _ λ e after k.
      Shorter-bind (length after) (length ts) (parse_option_value after) _
        (Shorter-option_value after) λ v left l. omega arith

Shorter-options : (ts : Tokens) → Shorter (length ts) (parse_options ts)
unfolding parse_options
Shorter-options ts = Shorter-then (length ts) an_angle_open ts _ λ o rest h.
    Shorter-bind (suc (length rest)) (length ts)
      (at_least_one (many_separated (suc (length rest)) parse_option rest)) _
      (Shorter-at_least_one (suc (length rest)) _ (
        Shorter-many_separated (suc (length rest)) parse_option (λ us _. Shorter-option us)
          (suc (length rest)) rest (omega arith) (omega arith)))
      λ os after k. Shorter-then (length ts) an_angle_close after _ λ c left l. omega arith

Shorter-token_sequence : (ts : Tokens) → Shorter (length ts) (parse_token_sequence ts)
unfolding parse_token_sequence
Shorter-token_sequence ts = Shorter-then (length ts) keyword_tokens ts _ λ a t₁ h₁.
    Shorter-bind (suc (length t₁)) (length ts) (maybe (parse_options t₁) t₁) _
      (Shorter-maybe (parse_options t₁) t₁ (Shorter-options t₁))
      λ os t₂ h₂. Shorter-then (length ts) a_curly_open t₂ _ λ b t₃ h₃.
        Shorter-bind (suc (length t₃)) (length ts)
          (at_least_one (many (suc (length t₃)) parse_token_part t₃)) _
          (Shorter-at_least_one (suc (length t₃)) _ (
            Shorter-many (suc (length t₃)) parse_token_part (λ us _. Shorter-token_part us)
              (suc (length t₃)) t₃ (omega arith) (omega arith)))
          λ ps t₄ h₄. Shorter-then (length ts) a_curly_close t₄ _ λ c left h₅. omega arith

Shorter-terminator : (ts : Tokens) → Shorter (length ts) (parse_terminator ts)
unfolding parse_terminator
Shorter-terminator ts = Shorter-then (length ts) keyword_terminator ts _ λ a t₁ h₁.
    Shorter-then (length ts) a_curly_open t₁ _ λ b t₂ h₂.
      Shorter-then (length ts) a_string t₂ _
        λ s t₃ h₃. Shorter-then (length ts) a_curly_close t₃ _ λ c left h₄. omega arith

pub Shorter-sequence :
    (n : ℕ) (p : Tokens → Parse MessagePart)
    → Progresses n p
    → (ts : Tokens) → length ts < n
    → Shorter (suc (length ts)) (parse_sequence p ts)
unfolding parse_sequence
Shorter-sequence n p progress ts h =
    Shorter-bind (suc (length ts)) (suc (length ts)) (at_least_one (many (suc (length ts)) p ts)) _
      (Shorter-at_least_one (suc (length ts)) _
        (Shorter-many n p progress (suc (length ts)) ts (omega arith) h))
      λ ps left k. k

Shorter-without :
    (os : Option OptionsMap) (ts : Tokens) → Shorter (suc (length ts)) (without_options os ts)
unfolding without_options
Shorter-without none ts = omega arith
Shorter-without (some os) ts = tt

Shorter-for_loop :
    (n : ℕ) (p : Tokens → Parse MessagePart)
    → Progresses n p
    → (ts : Tokens) → length ts < suc n
    → Shorter (length ts) (parse_for_loop p ts)
unfolding parse_for_loop
Shorter-for_loop n p progress ts h = Shorter-then (length ts) keyword_for ts _ λ a t₁ h₁.
    Shorter-bind (suc (length t₁)) (length ts) (maybe (parse_options t₁) t₁) _
      (Shorter-maybe (parse_options t₁) t₁ (Shorter-options t₁))
      λ os t₂ h₂.
        Shorter-bind (suc (length t₂)) (length ts) (without_options os t₂) _ (Shorter-without os t₂)
          λ b t₃ h₃.
            Shorter-bind (length t₃) (length ts) (parse_identifier (suc (length t₃)) t₃) _
              (Shorter-identifier (suc (length t₃)) t₃ (omega arith))
              λ v t₄ h₄. Shorter-then (length ts) keyword_in t₄ _ λ c t₅ h₅.
                Shorter-bind (length t₅) (length ts) (parse_identifier (suc (length t₅)) t₅) _
                  (Shorter-identifier (suc (length t₅)) t₅ (omega arith))
                  λ d t₆ h₆. Shorter-then (length ts) a_curly_open t₆ _ λ e t₇ h₇.
                    Shorter-bind (suc (length t₇)) (length ts) (parse_sequence p t₇) _
                      (Shorter-sequence n p progress t₇ (omega arith))
                      λ block t₈ h₈.
                        Shorter-then (length ts) a_curly_close t₈ _ λ f left h₉. omega arith

pub Shorter-part : (f : ℕ) → Progresses f (parse_part f)
unfolding parse_part
Shorter-part zero ts h = absurd (omega arith)
Shorter-part (suc f) ts h =
    Shorter-either (length ts) _ _
      (Shorter-bind (length ts) (length ts) (parse_token_sequence ts) _ (Shorter-token_sequence ts)
        λ s rest k. k)
      (Shorter-either (length ts) _ _
        (Shorter-bind (length ts) (length ts) (parse_terminator ts) _ (Shorter-terminator ts)
          λ s rest k. k)
        (Shorter-for_loop f (parse_part f) (Shorter-part f) ts h))
