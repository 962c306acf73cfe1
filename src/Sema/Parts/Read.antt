-- ===== src/Sema/Parts/Read.antt =====
-- sema/partstoreadactions.cpp: the actions that read the parts of a message.
use building_programming_lan.Prelude.{Option, none, some, List, [], ◌∷◌, ◌++◌}
use building_programming_lan.Bytes.{Bytes}
use building_programming_lan.Syntax.{
  EscapeReplacement, TokenPart, token_literal, token_identifier, TokenSequence, token_sequence,
  terminator, message_for_loop, MessageSequence, no_part, part,
}
use building_programming_lan.Sema.{
  Action, action_read_static_octets, action_read_octets_until_terminator, action_loop, Actions,
  no_action, action,
}
use building_programming_lan.Sema.Parts.{join, escape_info}
use building_programming_lan.Sema.Parts.Write.{loop_action}

-- The actions after one more.
unfoldable pub before : Action → Option Actions → Option Actions
before a none = none
before a (some xs) = some (action a xs)

-- IndividualTokenAction, for each token or pair of tokens: an identifier is read up to the literal
-- that follows it.
unfoldable pub token_actions : List TokenPart → Option Actions
unfolding before
token_actions [] = some no_action
token_actions (token_literal octets ∷ rest) =
    before (action_read_static_octets octets) (token_actions rest)
token_actions (token_identifier id ∷ token_literal t ∷ rest) =
    before (action_read_octets_until_terminator t id none) (token_actions rest)
token_actions (token_identifier id ∷ _) = none

-- TokenSequence, which does not match an empty vector.
unfoldable pub parse_tokens : List TokenPart → Option Actions
unfolding token_actions
parse_tokens [] = none
parse_tokens (t ∷ rest) = token_actions (t ∷ rest)

unfoldable pub apply_escape_to_actions : EscapeReplacement → Actions → Actions
apply_escape_to_actions e no_action = no_action
apply_escape_to_actions e (action (action_read_octets_until_terminator t id o) rest) =
    action (action_read_octets_until_terminator t id (some (escape_info e)))
      (apply_escape_to_actions e rest)
apply_escape_to_actions e (action a rest) = action a (apply_escape_to_actions e rest)

unfoldable pub with_escape : Option EscapeReplacement → Option Actions → Option Actions
unfolding apply_escape_to_actions
with_escape (some e) (some xs) = some (apply_escape_to_actions e xs)
with_escape _ o = o

unfoldable pub process_token_sequence : TokenSequence → Bytes → Option Actions
unfolding with_escape parse_tokens
process_token_sequence ts t =
    with_escape ts.escape (parse_tokens (ts.tokens ++ token_literal t ∷ []))

-- `match` of a token sequence at the end of input, with the terminator that it embeds.
unfoldable pub match_last : TokenSequence → Option Bytes → Option Actions
unfolding process_token_sequence
match_last ts (some t) = process_token_sequence ts t
match_last ts none = with_escape ts.escape (parse_tokens ts.tokens)

-- `match` of a token sequence before a terminator block: two terminators conflict.
unfoldable pub match_terminated : TokenSequence → Option Bytes → Bytes → Option Actions
unfolding process_token_sequence
match_terminated ts (some embedded) t = none
match_terminated ts none t = process_token_sequence ts t

-- PartSequenceToReadActions; a token sequence is the last part or is followed by a terminator, and so
-- is a loop.
unfoldable pub parts_to_read_actions : MessageSequence → Option Actions
unfolding join match_last match_terminated loop_action
parts_to_read_actions no_part = some no_action
parts_to_read_actions (part (token_sequence ts) no_part) =
    join (match_last ts ts.terminator) (some no_action)
parts_to_read_actions (part (token_sequence ts) (part (terminator t) rest)) =
    join (match_terminated ts ts.terminator t) (parts_to_read_actions rest)
parts_to_read_actions
      (part (message_for_loop variable collection block o) (part (terminator t) rest)) =
    join (loop_action (action_loop variable collection t) (parts_to_read_actions block))
      (parts_to_read_actions rest)
parts_to_read_actions _ = none
