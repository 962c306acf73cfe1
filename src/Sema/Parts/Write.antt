-- ===== src/Sema/Parts/Write.antt =====
-- sema/partstowriteactions.cpp: the actions that write the parts of a message.
use building_programming_lan.Prelude.{Option, none, some, List, [], ◌∷◌, ◌++◌}
use building_programming_lan.Bytes.{Bytes}
use building_programming_lan.Syntax.{
  EscapeReplacement, TokenPart, token_literal, token_identifier, TokenSequence, token_sequence,
  terminator, message_for_loop, MessageSequence, no_part, part,
}
use building_programming_lan.Sema.{
  Action, action_write_from_identifier, action_write_static_octets, action_loop, Actions, no_action,
  action,
}
use building_programming_lan.Sema.Parts.{join, escape_info}

-- IndividualTokenAction
unfoldable pub token_action : TokenPart → Action
token_action (token_literal octets) = action_write_static_octets octets
token_action (token_identifier id) = action_write_from_identifier id none

unfoldable pub token_actions : List TokenPart → Actions
unfolding token_action
token_actions [] = no_action
token_actions (t ∷ rest) = action (token_action t) (token_actions rest)

-- TokenSequence, which does not match an empty vector.
unfoldable pub parse_tokens : List TokenPart → Option Actions
unfolding token_actions
parse_tokens [] = none
parse_tokens (t ∷ rest) = some (token_actions (t ∷ rest))

unfoldable pub apply_escape_to_actions : EscapeReplacement → Actions → Actions
apply_escape_to_actions e no_action = no_action
apply_escape_to_actions e (action (action_write_from_identifier id o) rest) =
    action (action_write_from_identifier id (some (escape_info e))) (apply_escape_to_actions e rest)
apply_escape_to_actions e (action a rest) = action a (apply_escape_to_actions e rest)

unfoldable pub with_escape : Option EscapeReplacement → Option Actions → Option Actions
unfolding apply_escape_to_actions
with_escape (some e) (some xs) = some (apply_escape_to_actions e xs)
with_escape _ o = o

-- The tokens with the terminator that the sequence embeds.
abbrev pub full_sequence : List TokenPart → Option Bytes → List TokenPart
full_sequence tokens none = tokens
full_sequence tokens (some t) = tokens ++ token_literal t ∷ []

unfoldable pub token_sequence_actions : TokenSequence → Option Actions
unfolding with_escape parse_tokens
token_sequence_actions ts =
    with_escape ts.escape (parse_tokens (full_sequence ts.tokens ts.terminator))

-- The action of a loop whose block has these actions.
unfoldable pub loop_action : (Actions → Action) → Option Actions → Option Actions
loop_action loop none = none
loop_action loop (some xs) = some (action (loop xs) no_action)

-- PartSequenceToWriteActions; a loop is followed by its terminator.
unfoldable pub parts_to_write_actions : MessageSequence → Option Actions
unfolding join token_sequence_actions loop_action
parts_to_write_actions no_part = some no_action
parts_to_write_actions (part (token_sequence ts) rest) =
    join (token_sequence_actions ts) (parts_to_write_actions rest)
parts_to_write_actions (part (terminator t) rest) =
    join (some (action (action_write_static_octets t) no_action)) (parts_to_write_actions rest)
parts_to_write_actions
      (part (message_for_loop variable collection block o) (part (terminator t) rest)) =
    join (loop_action (action_loop variable collection t) (parts_to_write_actions block))
      (parts_to_write_actions rest)
parts_to_write_actions (part (message_for_loop variable collection block o) _) = none
