-- ===== src/Parser/Filled.antt =====
-- parser/grammar: what the messages of a parsed protocol have, so that the semantic analysis can rely on
-- it.
use building_programming_lan.Prelude.{
  ℕ, zero, suc, ◌≢◌, ◌≡◌, ◌⊎◌, subst, Bool, true, false, Option, none, some, List, [], ◌∷◌, length,
  if◌then◌else◌, some-injective,
}
use building_programming_lan.Bytes.{Bytes, eq_bytes, codes}
use building_programming_lan.Syntax.{
  IdentifierReference, identifier_name, TokenPart, TokenSequence, MessagePart, token_sequence,
  terminator, message_for_loop, MessageSequence, no_part, part, MessageData, Message,
  ProtocolDescription,
}
use building_programming_lan.Sema.Parts.Mirror.{Filled}
use building_programming_lan.Sema.Analyze.{client_name, server_name}
use building_programming_lan.Sema.Analyze.Messages.{WellFormed}
use building_programming_lan.Parser.{
  Tokens, Parse, matched, no_match, out_of_fuel, take_token, maybe, many, at_least_one,
}
use building_programming_lan.Parser.Types.{
  a_string, emplace, emplace_all, parse_identifier, less_bytes,
}
use building_programming_lan.Parser.Parts.{
  OptionsMap, keyword_tokens, keyword_for, keyword_in, a_curly_open, a_curly_close,
  parse_token_part, parse_options, sequence_with, parse_token_sequence, parse_terminator,
  sequence_of, parse_sequence, without_options, parse_for_loop, parse_part,
}
use building_programming_lan.Parser.Protocol.{
  DataPair, keyword_message, keyword_parts, parse_data_pair, parse_data, parse_parts, seen_all,
  finish_message, message_body, parse_message, parse_protocol, whole, parse, attribute,
}
use building_programming_lan.Parser.Yields.{
  Yields, All, Yields-bind, Yields-then, Yields-either, Yields-many, Yields-at_least_one,
}

-- A part whose token sequences are not empty.
abbrev FilledPart : MessagePart → Type 0
FilledPart p = Filled (part p no_part)

part-Filled :
    (p : MessagePart) (rest : MessageSequence) → FilledPart p → Filled rest → Filled (part p rest)
unfolding Filled
part-Filled (token_sequence ts) rest h k = (h.0, k)
part-Filled (terminator t) rest h k = k
part-Filled (message_for_loop v c block o) rest h k = (h.0, k)

sequence_of-Filled : (ps : List MessagePart) → All FilledPart ps → Filled (sequence_of ps)
unfolding Filled All sequence_of
sequence_of-Filled [] h = tt
sequence_of-Filled (p ∷ ps) (h, k) = part-Filled p (sequence_of ps) h (sequence_of-Filled ps k)

sequence_with-tokens :
    (os : Option OptionsMap) (ps : List TokenPart) → ps ≢ [] → (sequence_with os ps).tokens ≢ []
unfolding sequence_with
sequence_with-tokens none ps h = h
sequence_with-tokens (some os) ps h = h

Any : {A : Type 0} → A → Type 0
Any a = Unit {0}

Any-Yields : {A : Type 0} (p : Parse A) → Yields Any p
unfolding Any
Any-Yields (matched a rest) = tt
Any-Yields no_match = tt
Any-Yields out_of_fuel = tt

abbrev HasTokens : TokenSequence → Type 0
HasTokens s = s.tokens ≢ []

token_sequence-Yields : (ts : Tokens) → Yields HasTokens (parse_token_sequence ts)
unfolding parse_token_sequence
token_sequence-Yields ts = Yields-then HasTokens (take_token keyword_tokens ts) _ λ a t₁.
    Yields-then HasTokens (maybe (parse_options t₁) t₁) _ λ os t₂.
      Yields-then HasTokens (take_token a_curly_open t₂) _ λ b t₃.
        Yields-bind HasTokens (λ ps. (ps ≢ []) × All Any ps)
          (at_least_one (many (suc (length t₃)) parse_token_part t₃)) _
          (Yields-at_least_one Any _ (
            Yields-many Any (suc (length t₃)) parse_token_part t₃
              λ us. Any-Yields (parse_token_part us)))
          λ ps t₄ h.
            Yields-then HasTokens (take_token a_curly_close t₄) _
              λ c left. sequence_with-tokens os ps h.0

sequence-Yields :
    (p : Tokens → Parse MessagePart) (ts : Tokens)
    → ((us : Tokens) → Yields FilledPart (p us))
    → Yields Filled (parse_sequence p ts)
unfolding parse_sequence
sequence-Yields p ts h =
    Yields-bind Filled (λ ps. (ps ≢ []) × All FilledPart ps)
      (at_least_one (many (suc (length ts)) p ts)) _
      (Yields-at_least_one FilledPart _ (Yields-many FilledPart (suc (length ts)) p ts h))
      λ ps left k. sequence_of-Filled ps k.1

for_loop-Yields :
    (p : Tokens → Parse MessagePart) (ts : Tokens)
    → ((us : Tokens) → Yields FilledPart (p us))
    → Yields FilledPart (parse_for_loop p ts)
unfolding parse_for_loop Filled
for_loop-Yields p ts h = Yields-then FilledPart (take_token keyword_for ts) _ λ a t₁.
    Yields-then FilledPart (maybe (parse_options t₁) t₁) _ λ os t₂.
      Yields-then FilledPart (without_options os t₂) _ λ b t₃.
        Yields-then FilledPart (parse_identifier (suc (length t₃)) t₃) _ λ v t₄.
          Yields-then FilledPart (take_token keyword_in t₄) _ λ c t₅.
            Yields-then FilledPart (parse_identifier (suc (length t₅)) t₅) _ λ d t₆.
              Yields-then FilledPart (take_token a_curly_open t₆) _ λ e t₇.
                Yields-bind FilledPart Filled (parse_sequence p t₇) _ (sequence-Yields p t₇ h)
                  λ block t₈ k.
                    Yields-then FilledPart (take_token a_curly_close t₈) _ λ f left. (k, tt)

part-Yields : (f : ℕ) (ts : Tokens) → Yields FilledPart (parse_part f ts)
unfolding parse_part Filled
part-Yields zero ts = tt
part-Yields (suc f) ts =
    Yields-either FilledPart _ _
      (Yields-bind FilledPart HasTokens (parse_token_sequence ts) _ (token_sequence-Yields ts)
        λ s rest h. (h, tt))
      (Yields-either FilledPart _ _ (Yields-then FilledPart (parse_terminator ts) _ λ s rest. tt)
        (for_loop-Yields (parse_part f) ts (part-Yields f)))

abbrev FilledMessage : Message → Type 0
FilledMessage m = Filled m.parts

seen-Yields :
    (fields : MessageData) (ps : MessageSequence) (w t a : Option IdentifierReference)
    (left : Tokens)
    → Filled ps
    → Yields FilledMessage (seen_all fields ps w t a left)
unfolding seen_all
seen-Yields fields ps (some w) (some t) (some a) left h = h
seen-Yields fields ps (some w) (some t) none left h = tt
seen-Yields fields ps (some w) none a left h = tt
seen-Yields fields ps none t a left h = tt

finish-Yields :
    (attributes : List DataPair) (fields : MessageData) (ps : MessageSequence) (ts : Tokens)
    → Filled ps
    → Yields FilledMessage (finish_message attributes fields ps ts)
unfolding finish_message
finish-Yields attributes fields ps ts h =
    Yields-then FilledMessage (take_token a_curly_close ts) _ λ c left.
      seen-Yields fields ps (attribute (codes "when") attributes)
        (attribute (codes "then") attributes) (attribute (codes "agent") attributes) left h

parts-Yields : (ts : Tokens) → Yields Filled (parse_parts ts)
unfolding parse_parts
parts-Yields ts = Yields-then Filled (take_token keyword_parts ts) _ λ a t₁.
    Yields-then Filled (take_token a_curly_open t₁) _ λ b t₂.
      Yields-bind Filled Filled (parse_sequence (parse_part (suc (length t₂))) t₂) _
        (sequence-Yields (parse_part (suc (length t₂))) t₂ (part-Yields (suc (length t₂))))
        λ ps t₃ h. Yields-then Filled (take_token a_curly_close t₃) _ λ c left. h

body-Yields :
    (attributes : List DataPair) (fields : Option MessageData) (ts : Tokens)
    → Yields FilledMessage (message_body attributes fields ts)
unfolding message_body Filled
body-Yields attributes none ts = finish-Yields attributes [] no_part ts tt
body-Yields attributes (some fields) ts =
    Yields-bind FilledMessage Filled (parse_parts ts) _ (parts-Yields ts)
      λ ps rest h. finish-Yields attributes fields ps rest h

abbrev FilledNamed : Bytes × Message → Type 0
FilledNamed m = FilledMessage m.1

message-Yields : (ts : Tokens) → Yields FilledNamed (parse_message ts)
unfolding parse_message
message-Yields ts = Yields-then FilledNamed (take_token keyword_message ts) _ λ a t₁.
    Yields-then FilledNamed (take_token a_string t₁) _ λ name t₂.
      Yields-then FilledNamed (take_token a_curly_open t₂) _ λ b t₃.
        Yields-then FilledNamed (at_least_one (many (suc (length t₃)) parse_data_pair t₃)) _
          λ attributes t₄. Yields-then FilledNamed (maybe (parse_data t₄) t₄) _ λ fields t₅.
            Yields-bind FilledNamed FilledMessage (message_body attributes fields t₅) _
              (body-Yields attributes fields t₅) λ message left h. h

if_All :
    (b : Bool) (x y : ProtocolDescription)
    → All FilledNamed x
    → All FilledNamed y
    → All FilledNamed (if b then x else y)
if_All true x y h k = h
if_All false x y h k = k

emplace-Filled :
    (key : Bytes) (m : Message) (ms : ProtocolDescription)
    → FilledMessage m
    → All FilledNamed ms
    → All FilledNamed (emplace key m ms)
unfolding emplace All
emplace-Filled key m [] h k = (h, tt)
emplace-Filled key m ((n, x) ∷ rest) h (k, l) =
    if_All (eq_bytes n key) _ _ (k, l)
      (if_All (less_bytes key n) _ _ (h, (k, l)) (k, emplace-Filled key m rest h l))

emplace_all-Filled :
    (ms done : ProtocolDescription)
    → All FilledNamed ms
    → All FilledNamed done
    → All FilledNamed (emplace_all ms done)
unfolding emplace_all All
emplace_all-Filled [] done h k = k
emplace_all-Filled ((key, m) ∷ rest) done (h, l) k =
    emplace_all-Filled rest (emplace key m done) l (emplace-Filled key m done h k)

protocol-Yields : (ts : Tokens) → Yields (All FilledNamed) (parse_protocol ts)
unfolding parse_protocol All
protocol-Yields ts =
    Yields-bind (All FilledNamed) (λ ms. (ms ≢ []) × All FilledNamed ms)
      (at_least_one (many (suc (length ts)) parse_message ts)) _
      (Yields-at_least_one FilledNamed _
        (Yields-many FilledNamed (suc (length ts)) parse_message ts message-Yields))
      λ ms left h. emplace_all-Filled ms [] h.1 tt

whole-Filled :
    (r : Parse ProtocolDescription) (p : ProtocolDescription)
    → Yields (All FilledNamed) r
    → whole r ≡ some p
    → All FilledNamed p
unfolding whole
whole-Filled (matched q []) p h e = subst (All FilledNamed) (some-injective e) h
whole-Filled (matched q (t ∷ ts)) p h e = cc
whole-Filled no_match p h e = cc
whole-Filled out_of_fuel p h e = cc

-- Each message names the client or the server.
unfoldable pub AgentsNamed : ProtocolDescription → Type 0
AgentsNamed [] = Unit {0}
AgentsNamed ((name, message) ∷ rest) =
    ((identifier_name message.agent ≡ client_name) ⊎ (identifier_name message.agent ≡ server_name))
    × AgentsNamed rest

both-WellFormed : (p : ProtocolDescription) → AgentsNamed p → All FilledNamed p → WellFormed p
unfolding AgentsNamed All WellFormed
both-WellFormed [] h k = tt
both-WellFormed ((name, message) ∷ rest) (h, i) (k, l) = (h, k, both-WellFormed rest i l)

-- A protocol that was parsed from tokens, and whose messages name the client or the server, is well
-- formed: none of its token sequences is empty, within loops neither.
pub parse-WellFormed :
    (ts : Tokens) (p : ProtocolDescription) → parse ts ≡ some p → AgentsNamed p → WellFormed p
unfolding parse
parse-WellFormed ts p e h =
    both-WellFormed p h (whole-Filled (parse_protocol ts) p (protocol-Yields ts) e)
