-- ===== src/Samples/Sources.antt =====
-- The theorems on the lexer, the parser, programs and collections at concrete inputs. The matches of the
-- patterns are those of a small lexer for the sources below.
use building_programming_lan.Prelude.{
  ℕ, ◌≤◌, ◌≡◌, refl, ◌⊎◌, inl, inr, Bool, true, false, ◌&&◌, ◌||◌, Option, none, some, List, [],
  ◌∷◌, ◌++◌, length, if◌then◌else◌, ◌==◌, leb, not,
}
use building_programming_lan.Bytes.{Bytes, codes, eq_bytes}
use building_programming_lan.Outcome.{Outcome, ok}
use building_programming_lan.Value.{
  OpTree, optree, node, leaf, op_sequence, state_machine, StateMap, no_state, no_transition,
}
use building_programming_lan.Control.{StatePair, TransitionPair}
use building_programming_lan.Control.Machine.{find_state, find_transition, open_name}
use building_programming_lan.Syntax.{ProtocolDescription, identifier_name}
use building_programming_lan.Sema.Analyze.Messages.{WellFormed}
use building_programming_lan.Parser.{Tokens, string_token, matched, no_match}
use building_programming_lan.Parser.Protocol.{parse, parse_protocol}
use building_programming_lan.Parser.Shorter.Protocol.{parse_protocol-total}
use building_programming_lan.Parser.Filled.{AgentsNamed, parse-WellFormed}
use building_programming_lan.Lexer.{Lexed, end_of_input, unknown, lexed, tokenize, push_string}
use building_programming_lan.Lexer.Literal.{
  Plain, escape_string_literal, push_string-escape_string_literal,
}
use building_programming_lan.Generate.{node_0}
use building_programming_lan.Generate.Supplied.{SuppliedTree}
use building_programming_lan.Program.{generate_client_from_source, program_target_found}

abbrev is_letter : ℕ → Bool
is_letter c = (leb 65 c && leb c 90) || (leb 97 c && leb c 122)

abbrev is_blank : ℕ → Bool
is_blank c = c == 32 || c == 10

-- The longest prefix of such characters, and the rest.
abbrev span : (ℕ → Bool) → Bytes → Bytes × Bytes
span test [] = ([], [])
span test (c ∷ rest) = elim (test c) [
  | true ↦ (c ∷ (span test rest).0, (span test rest).1)
  | false ↦ ([], c ∷ rest)
]

abbrev keywords : List (Bytes × ℕ)
keywords =
    (codes "message", 5)
    ∷ (codes "parts", 6)
    ∷ (codes "terminator", 7)
    ∷ (codes "tokens", 8)
    ∷ (codes "{", 15)
    ∷ (codes "}", 14)
    ∷ (codes ":", 17)
    ∷ (codes ";", 18)
    ∷ []

unfoldable rule_of : List (Bytes × ℕ) → Bytes → ℕ
rule_of [] word = 22
rule_of ((w, id) ∷ rest) word = if eq_bytes w word then id else rule_of rest word

unfoldable small_lookup : Bytes → Lexed
unfolding rule_of
small_lookup [] = end_of_input
small_lookup (c ∷ rest) = elim (is_letter c) [
  | true ↦ let word = span is_letter (c ∷ rest) in lexed (rule_of keywords word.0) word.0 word.1
  | false ↦ elim (is_blank c) [
    | true ↦ let blank = span is_blank (c ∷ rest) in lexed 21 blank.0 blank.1
    | false ↦ elim (c == 34) [
      | true ↦ quoted (span (λ d. not (d == 34)) rest)
      | false ↦ lexed (rule_of keywords (c ∷ [])) (c ∷ []) rest
    ]
  ]
]
  where
    quoted : Bytes × Bytes → Lexed
    quoted (inner, []) = unknown
    quoted (inner, q ∷ after) = lexed 10 (34 ∷ inner ++ 34 ∷ []) after

abbrev source : Bytes
source =
    codes
      "message \"Name\" { when: Open; then: Closed; agent: Client; data: { name: str; } parts { tokens { name } terminator { \".\" } } }"

abbrev tokens_or : Outcome (Option Tokens) → Tokens
tokens_or (ok (some ts)) = ts
tokens_or _ = []

abbrev source_tokens : Tokens
source_tokens = tokens_or (tokenize small_lookup source)

abbrev protocol_or : Option ProtocolDescription → ProtocolDescription
protocol_or none = []
protocol_or (some p) = p

abbrev source_protocol : ProtocolDescription
source_protocol = protocol_or (parse source_tokens)

source_parsed : parse source_tokens ≡ some source_protocol
unfolding tokenize small_lookup parse push_string
source_parsed = refl

source_agents : AgentsNamed source_protocol
unfolding tokenize small_lookup parse AgentsNamed identifier_name push_string
source_agents = (inl refl, tt)

parse-WellFormed_example : WellFormed source_protocol
parse-WellFormed_example =
    parse-WellFormed source_tokens source_protocol source_parsed source_agents

parse_protocol-total_example :
    (parse_protocol source_tokens ≡ no_match)
    ⊎ ((p : ProtocolDescription) × (rest : Tokens) × (parse_protocol source_tokens ≡ matched p rest)
        × (length rest ≤ length source_tokens))
parse_protocol-total_example = parse_protocol-total source_tokens

abbrev printable : ℕ → Bool
printable c = leb 32 c && leb c 126

abbrev line : Bytes
line = codes "a\"\r\n"

line-Plain : Plain printable line
unfolding Plain
line-Plain = (inr (inr (inr refl)), (inr (inr (inr refl)), (inl refl, (inr (inl refl), tt))))

push_string-escape_string_literal_example :
    push_string (escape_string_literal printable line) ≡ ok (string_token line ∷ [])
push_string-escape_string_literal_example =
    push_string-escape_string_literal printable line line-Plain

abbrev machine_or : Outcome (Option OpTree) → StateMap
machine_or (ok (some (optree (node (state_machine m) ns)))) = m
machine_or _ = no_state

abbrev source_machine : StateMap
source_machine = machine_or (generate_client_from_source small_lookup source)

abbrev state_or : Option StatePair → StatePair
state_or none = record {
  state_name = [];
  callback_optree = optree (node op_sequence leaf);
  transitions = no_transition;
}
state_or (some s) = s

abbrev transition_or : Option TransitionPair → TransitionPair
transition_or none = record {
  transition_name = [];
  transition_optree = optree (node op_sequence leaf);
  argument_names = [];
  target_state = [];
}
transition_or (some t) = t

abbrev source_open : StatePair
source_open = state_or (find_state open_name source_machine)

abbrev source_name : TransitionPair
source_name = transition_or (find_transition (codes "Name") source_open.transitions)

source_generated :
    generate_client_from_source small_lookup source
    ≡ ok (some (optree (node_0 (state_machine source_machine))))
unfolding small_lookup generate_client_from_source push_string
source_generated = refl

source_open_found : find_state open_name source_machine ≡ some source_open
unfolding small_lookup generate_client_from_source push_string find_state
source_open_found = refl

source_name_found : find_transition (codes "Name") source_open.transitions ≡ some source_name
unfolding small_lookup generate_client_from_source push_string find_state find_transition
source_name_found = refl

program_target_found_example :
    SuppliedTree (optree (node_0 (state_machine source_machine)))
    × (target : StatePair) × (find_state source_name.target_state source_machine ≡ some target)
program_target_found_example =
    program_target_found small_lookup source source_machine open_name (codes "Name") source_open
      source_name (inl source_generated) source_open_found source_name_found
