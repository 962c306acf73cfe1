-- ===== src/Samples/Protocols.antt =====
-- The theorems on the analysis of a protocol and on its generated state machines at a small protocol:
-- the client sends a name up to the end of a line, and the server answers and closes.
use building_programming_lan.Prelude.{
  ◌↔◌, leb, ◌&&◌, ◌||◌, ◌-◌, if◌then◌else◌, true, ◌≡◌, refl, inl, inr, Option, none, some, [], ◌∷◌,
}
use building_programming_lan.Bytes.{codes}
use building_programming_lan.Outcome.{Outcome, ok}
use building_programming_lan.Value.{OpTree, optree, op_sequence, node, leaf, StateMap, no_state}
use building_programming_lan.Control.Machine.{open_name, closed_name}
use building_programming_lan.Syntax.{
  identifier, identifier_name, type_tree, no_parameter, token_literal, token_identifier,
  MessageSequence, part, no_part, token_sequence, terminator, Message, ProtocolDescription,
}
use building_programming_lan.Sema.{Agent, Protocol, Actions, no_action}
use building_programming_lan.Sema.Parts.Read.{parts_to_read_actions}
use building_programming_lan.Sema.Parts.Write.{parts_to_write_actions}
use building_programming_lan.Sema.Parts.Unread.{unread}
use building_programming_lan.Sema.Parts.Mirror.{Filled, write-read_actions}
use building_programming_lan.Sema.Analyze.{analyze_agent, client_name, server_name}
use building_programming_lan.Sema.Analyze.Targets.{Closed, analyze_agent-Closed}
use building_programming_lan.Sema.Analyze.Messages.{OpposedStates, WellFormed}
use building_programming_lan.Sema.Analyze.Opposite.{analyze-Opposed}
use building_programming_lan.Generate.States.{construct_state_map, client}
use building_programming_lan.Generate.States.Outline.{state_entries, described_states, entries_lem}
use building_programming_lan.Generate.Supplied.{SuppliedTree}
use building_programming_lan.Generate.Supplied.Machine.{generated-Supplied}
use building_programming_lan.Codegen.{CharacterClasses, state_name_to_identifier}
use building_programming_lan.Codegen.Names.{IdentifierForm, state_name_to_identifier-IdentifierForm}
use building_programming_lan.Codegen.Info.{collect_messages}
use building_programming_lan.Codegen.Unique.{times, in_agent, collect_messages_lem}

abbrev name_parts : MessageSequence
name_parts =
    part
      (token_sequence (record {
        tokens = token_literal (codes "N ") ∷ token_identifier (identifier (codes "name")) ∷ [];
        terminator = none;
        escape = some (record { character = codes "\n"; sequence = codes "\r\n " });
      }))
      (part (terminator (codes "\r\n")) no_part)

abbrev name_message : Message
name_message = record {
  when = identifier open_name;
  then_state = identifier (codes "Named");
  agent = identifier client_name;
  data_fields = some ((codes "name", type_tree (identifier (codes "str")) no_parameter) ∷ []);
  parts = name_parts;
}

abbrev bye_message : Message
bye_message = record {
  when = identifier (codes "Named");
  then_state = identifier closed_name;
  agent = identifier server_name;
  data_fields = some [];
  parts =
      part
        (token_sequence
          (record { tokens = token_literal (codes "bye") ∷ []; terminator = none; escape = none }))
        no_part;
}

abbrev sample : ProtocolDescription
sample = (codes "Bye", bye_message) ∷ (codes "Name", name_message) ∷ []

-- The results, with a default that is not taken.
abbrev agent_or : Option Agent → Agent
agent_or none = record { states = [] }
agent_or (some a) = a

abbrev actions_or : Option Actions → Actions
actions_or none = no_action
actions_or (some xs) = xs

abbrev map_or : Outcome (Option StateMap) → StateMap
map_or (ok (some m)) = m
map_or _ = no_state

abbrev tree_or : Outcome (Option OpTree) → OpTree
tree_or (ok (some t)) = t
tree_or _ = optree (node op_sequence leaf)

abbrev sample_client : Agent
sample_client = agent_or (analyze_agent sample client_name)

abbrev sample_server : Agent
sample_server = agent_or (analyze_agent sample server_name)

sample_client_analyzed : analyze_agent sample client_name ≡ some sample_client
unfolding analyze_agent
sample_client_analyzed = refl

name_parts-Filled : Filled name_parts
unfolding Filled
name_parts-Filled = (cc, tt)

write-read_actions_example :
    parts_to_write_actions name_parts
    ≡ some (unread (actions_or (parts_to_read_actions name_parts)))
unfolding parts_to_read_actions
write-read_actions_example =
    write-read_actions name_parts (actions_or (parts_to_read_actions name_parts)) name_parts-Filled
      refl

sample_server_analyzed : analyze_agent sample server_name ≡ some sample_server
unfolding analyze_agent
sample_server_analyzed = refl

sample-WellFormed : WellFormed sample
unfolding WellFormed Filled identifier_name
sample-WellFormed = (inr refl, (cc, tt), (inl refl, (cc, tt), tt))

analyze-Opposed_example : OpposedStates sample_client.states sample_server.states
analyze-Opposed_example =
    analyze-Opposed sample sample_client sample_server sample-WellFormed sample_client_analyzed
      sample_server_analyzed

analyze_agent-Closed_example : Closed sample_client.states
analyze_agent-Closed_example =
    analyze_agent-Closed sample client_name sample_client sample_client_analyzed

abbrev sample_map : StateMap
sample_map = map_or (construct_state_map sample_client.states)

sample_map_constructed : construct_state_map sample_client.states ≡ ok (some sample_map)
unfolding analyze_agent construct_state_map
sample_map_constructed = refl

entries_lem_example : state_entries sample_map ≡ described_states sample_client.states
entries_lem_example = entries_lem sample_client.states sample_map sample_map_constructed

abbrev sample_protocol : Option Protocol
sample_protocol = some (record { client = some sample_client; server = some sample_server })

abbrev sample_tree : OpTree
sample_tree = tree_or (client sample_protocol)

sample_tree_generated : client sample_protocol ≡ ok (some sample_tree)
unfolding analyze_agent client
sample_tree_generated = refl

generated-Supplied_example : SuppliedTree sample_tree
generated-Supplied_example =
    generated-Supplied sample_protocol sample_tree (inl sample_tree_generated)

-- The digits and the small letters, and their capitals.
abbrev ascii : CharacterClasses
ascii = record {
  is_alnum = λ c. (leb 48 c && leb c 57) || (leb 97 c && leb c 122);
  is_digit = λ c. leb 48 c && leb c 57;
  to_upper = λ c. if leb 97 c && leb c 122 then c - 32 else c;
}

state_name_to_identifier-IdentifierForm_example :
    IdentifierForm ascii (state_name_to_identifier ascii (codes "2nd"))
    × ((state_name_to_identifier ascii (codes "2nd") ≡ codes "2nd")
        ↔ IdentifierForm ascii (codes "2nd"))
state_name_to_identifier-IdentifierForm_example =
    state_name_to_identifier-IdentifierForm ascii refl (codes "2nd")

abbrev both_sides : Protocol
both_sides = record { client = some sample_client; server = some sample_server }

collect_messages_lem_example : times (codes "Name") (collect_messages ascii both_sides) ≡ (
    if (if in_agent (codes "Name") both_sides.client
      then true
      else in_agent (codes "Name") both_sides.server)
    then 1
    else 0)
collect_messages_lem_example = collect_messages_lem ascii both_sides (codes "Name")
