-- ===== src/Parser/Shorter/Protocol.antt =====
-- parser/grammar/messagedata.hpp, message.hpp and protocoldescription.hpp: a match leaves fewer tokens,
-- and the fuel is enough.
use building_programming_lan.Prelude.{
  ℕ, suc, ◌≤◌, ◌<◌, ◌≡◌, ◌⊎◌, inl, inr, refl, Option, none, some, List, [], length, arith,
}
use building_programming_lan.Bytes.{codes}
use building_programming_lan.Syntax.{
  IdentifierReference, MessageData, MessageSequence, ProtocolDescription,
}
use building_programming_lan.Parser.{
  Tokens, Parse, matched, no_match, out_of_fuel, maybe, many, at_least_one,
}
use building_programming_lan.Parser.Types.{an_identifier, a_string, parse_type}
use building_programming_lan.Parser.Parts.{
  a_curly_open, a_curly_close, identifier_named, parse_sequence, parse_part,
}
use building_programming_lan.Parser.Protocol.{
  a_colon, a_semicolon, keyword_message, keyword_parts, DataPair, parse_data_pair, parse_data,
  parse_parts, seen_all, finish_message, message_body, parse_message, parse_protocol, attribute,
}
use building_programming_lan.Parser.Shorter.{
  Shorter, Shorter-mono, Shorter-bind, Shorter-then, Shorter-maybe, Shorter-at_least_one,
  Shorter-many,
}
use building_programming_lan.Parser.Shorter.Types.{Shorter-type}
use building_programming_lan.Parser.Shorter.Parts.{Shorter-sequence, Shorter-part}

Shorter-data_pair : (ts : Tokens) → Shorter (length ts) (parse_data_pair ts)
unfolding parse_data_pair
Shorter-data_pair ts = Shorter-then (length ts) an_identifier ts _ λ name t₁ h₁.
    Shorter-then (length ts) a_colon t₁ _ λ a t₂ h₂.
      Shorter-bind (length t₂) (length ts) (parse_type (suc (length t₂)) t₂) _
        (Shorter-type (suc (length t₂)) t₂ (omega arith))
        λ t t₃ h₃. Shorter-then (length ts) a_semicolon t₃ _ λ b left h₄. omega arith

-- The pairs between braces.
Shorter-pairs :
    (ts : Tokens)
    → Shorter (suc (length ts)) (at_least_one (many (suc (length ts)) parse_data_pair ts))
Shorter-pairs ts = Shorter-at_least_one (suc (length ts)) _ (
    Shorter-many (suc (length ts)) parse_data_pair (λ us _. Shorter-data_pair us) (suc (length ts))
      ts (omega arith) (omega arith))

Shorter-data : (ts : Tokens) → Shorter (length ts) (parse_data ts)
unfolding parse_data
Shorter-data ts = Shorter-then (length ts) (identifier_named (codes "data")) ts _ λ a t₁ h₁.
    Shorter-then (length ts) a_colon t₁ _ λ b t₂ h₂.
      Shorter-then (length ts) a_curly_open t₂ _ λ c t₃ h₃.
        Shorter-bind (suc (length t₃)) (length ts)
          (at_least_one (many (suc (length t₃)) parse_data_pair t₃)) _ (Shorter-pairs t₃)
          λ fields t₄ h₄. Shorter-then (length ts) a_curly_close t₄ _ λ d left h₅. omega arith

Shorter-parts : (ts : Tokens) → Shorter (length ts) (parse_parts ts)
unfolding parse_parts
Shorter-parts ts = Shorter-then (length ts) keyword_parts ts _ λ a t₁ h₁.
    Shorter-then (length ts) a_curly_open t₁ _ λ b t₂ h₂.
      Shorter-bind (suc (length t₂)) (length ts) (parse_sequence (parse_part (suc (length t₂))) t₂)
        _
        (Shorter-sequence (suc (length t₂)) (parse_part (suc (length t₂)))
          (Shorter-part (suc (length t₂))) t₂ (omega arith))
        λ ps t₃ h₃. Shorter-then (length ts) a_curly_close t₃ _ λ c left h₄. omega arith

Shorter-seen :
    (n : ℕ) (fields : MessageData) (ps : MessageSequence) (w t a : Option IdentifierReference)
    (left : Tokens)
    → length left < n
    → Shorter n (seen_all fields ps w t a left)
unfolding seen_all
Shorter-seen n fields ps (some w) (some t) (some a) left h = h
Shorter-seen n fields ps (some w) (some t) none left h = tt
Shorter-seen n fields ps (some w) none a left h = tt
Shorter-seen n fields ps none t a left h = tt

Shorter-finish :
    (attributes : List DataPair) (fields : MessageData) (ps : MessageSequence) (ts : Tokens)
    → Shorter (length ts) (finish_message attributes fields ps ts)
unfolding finish_message
Shorter-finish attributes fields ps ts = Shorter-then (length ts) a_curly_close ts _ λ c left h.
    Shorter-seen (length ts) fields ps (attribute (codes "when") attributes)
      (attribute (codes "then") attributes) (attribute (codes "agent") attributes) left h

Shorter-body :
    (attributes : List DataPair) (fields : Option MessageData) (ts : Tokens)
    → Shorter (length ts) (message_body attributes fields ts)
unfolding message_body
Shorter-body attributes none ts = Shorter-finish attributes [] _ ts
Shorter-body attributes (some fields) ts =
    Shorter-bind (length ts) (length ts) (parse_parts ts) _ (Shorter-parts ts) λ ps rest h.
      Shorter-mono (length rest) (length ts) (finish_message attributes fields ps rest)
        (omega arith) (Shorter-finish attributes fields ps rest)

pub Shorter-message : (ts : Tokens) → Shorter (length ts) (parse_message ts)
unfolding parse_message
Shorter-message ts = Shorter-then (length ts) keyword_message ts _ λ a t₁ h₁.
    Shorter-then (length ts) a_string t₁ _ λ name t₂ h₂.
      Shorter-then (length ts) a_curly_open t₂ _ λ b t₃ h₃.
        Shorter-bind (suc (length t₃)) (length ts)
          (at_least_one (many (suc (length t₃)) parse_data_pair t₃)) _ (Shorter-pairs t₃)
          λ attributes t₄ h₄.
            Shorter-bind (suc (length t₄)) (length ts) (maybe (parse_data t₄) t₄) _
              (Shorter-maybe (parse_data t₄) t₄ (Shorter-data t₄))
              λ fields t₅ h₅.
                Shorter-bind (length t₅) (length ts) (message_body attributes fields t₅) _
                  (Shorter-body attributes fields t₅) λ message left h₆. omega arith

Shorter-protocol : (ts : Tokens) → Shorter (suc (length ts)) (parse_protocol ts)
unfolding parse_protocol
Shorter-protocol ts =
    Shorter-bind (suc (length ts)) (suc (length ts))
      (at_least_one (many (suc (length ts)) parse_message ts)) _
      (Shorter-at_least_one (suc (length ts)) _ (
        Shorter-many (suc (length ts)) parse_message (λ us _. Shorter-message us) (suc (length ts))
          ts (omega arith) (omega arith)))
      λ messages left h. h

parsed :
    (n : ℕ) (r : Parse ProtocolDescription)
    → Shorter (suc n) r
    → (r ≡ no_match)
      ⊎ ((p : ProtocolDescription) × (rest : Tokens) × (r ≡ matched p rest) × (length rest ≤ n))
parsed n (matched p rest) h = inr (p, rest, refl, omega arith)
parsed n no_match h = inl refl
parsed n out_of_fuel h = absurd h

-- The parser ends on every sequence of tokens, as the fuel of its recursions and loops is never used
-- up: it does not match, or it matches a protocol and leaves at most the tokens that it was given.
pub parse_protocol-total :
    (ts : Tokens)
    → (parse_protocol ts ≡ no_match)
      ⊎ ((p : ProtocolDescription) × (rest : Tokens) × (parse_protocol ts ≡ matched p rest)
          × (length rest ≤ length ts))
parse_protocol-total ts = parsed (length ts) (parse_protocol ts) (Shorter-protocol ts)
