-- ===== src/Sema/Analyze.antt =====
-- sema/analyze.cpp: from the messages of a protocol to the states and transitions of its two agents.
pub mod Targets
pub mod Messages
pub mod Opposite
use building_programming_lan.Prelude.{
  Bool, true, false, Option, none, some, List, [], ◌∷◌, if◌then◌else◌,
}
use building_programming_lan.Bytes.{Bytes, eq_bytes, codes}
use building_programming_lan.Syntax.{identifier_name, Message, ProtocolDescription}
use building_programming_lan.Sema.{
  AbstractTransition, Transition, read_transition, write_transition, Actions, State, Agent,
  Protocol,
}
use building_programming_lan.Sema.Parts.Write.{parts_to_write_actions}
use building_programming_lan.Sema.Parts.Read.{parts_to_read_actions}

-- `analyze_write_message` and `analyze_read_message`, after the actions of the parts.
unfoldable pub message_transition :
    (AbstractTransition → Transition) → Message → Option Actions → Option Transition
message_transition transition message none = none
message_transition transition message (some actions) =
    some (transition (record { data_fields = message.data_fields; actions = actions }))

unfoldable pub analyze_write_message : Message → Option Transition
unfolding message_transition parts_to_write_actions
analyze_write_message message =
    message_transition write_transition message (parts_to_write_actions message.parts)

unfoldable pub analyze_read_message : Message → Option Transition
unfolding message_transition parts_to_read_actions
analyze_read_message message =
    message_transition read_transition message (parts_to_read_actions message.parts)

-- The agent that a message names writes it, and any other reads it.
unfoldable pub analyze_message : Bytes → Message → Option Transition
unfolding eq_bytes identifier_name analyze_write_message analyze_read_message
analyze_message agent_name message =
    if eq_bytes (identifier_name message.agent) agent_name
    then analyze_write_message message
    else analyze_read_message message

abbrev pub Transitions : Type 0
Transitions = List (Bytes × Transition)

unfoldable pub add_transition : Bytes → Option Transition → Option Transitions → Option Transitions
add_transition name (some t) (some rest) = some ((name, t) ∷ rest)
add_transition name _ _ = none

unfoldable pub analyze_transitions : Bytes → ProtocolDescription → Option Transitions
unfolding analyze_message add_transition
analyze_transitions agent_name [] = some []
analyze_transitions agent_name ((name, message) ∷ rest) =
    add_transition name (analyze_message agent_name message) (analyze_transitions agent_name rest)

-- `transitions[name]`, where the name is a key.
unfoldable pub transition_named : Bytes → Transitions → Option Transition
unfolding eq_bytes
transition_named name [] = none
transition_named name ((n, t) ∷ rest) =
    if eq_bytes n name then some t else transition_named name rest

abbrev pub States : Type 0
States = List (Bytes × State)

abbrev pub empty_state : State
empty_state = record { transitions = [] }

-- The state is created if there is none of this name.
unfoldable pub ensure_state : Bytes → States → States
unfolding eq_bytes
ensure_state name [] = (name, empty_state) ∷ []
ensure_state name ((n, s) ∷ rest) =
    let after = ensure_state name rest in if eq_bytes n name then (n, s) ∷ rest else (n, s) ∷ after

-- `transitions[name] = std::make_pair(t, target)`
unfoldable pub assign_transition :
    Bytes
    → Transition
    → Bytes
    → List (Bytes × Transition × Bytes)
    → List (Bytes × Transition × Bytes)
unfolding eq_bytes
assign_transition name t target [] = (name, t, target) ∷ []
assign_transition name t target ((n, u, v) ∷ rest) =
    let after = assign_transition name t target rest in
    if eq_bytes n name then (n, t, target) ∷ rest else (n, u, v) ∷ after

-- `states[when_state]->transitions[name] = …`, where the state is there.
unfoldable pub assign_in_state : Bytes → Bytes → Transition → Bytes → States → States
unfolding eq_bytes assign_transition
assign_in_state when_state name t target [] = []
assign_in_state when_state name t target ((n, s) ∷ rest) =
    let after = assign_in_state when_state name t target rest in
    if eq_bytes n when_state
    then (n, record { transitions = assign_transition name t target s.transitions }) ∷ rest
    else (n, s) ∷ after

-- A message with the transition that was found for it.
unfoldable pub assemble_message : Bytes → Message → Option Transition → States → States
unfolding ensure_state assign_in_state identifier_name
assemble_message name message none states = states
assemble_message name message (some t) states =
    assign_in_state (identifier_name message.when) name t (identifier_name message.then_state) (
      ensure_state (identifier_name message.then_state)
        (ensure_state (identifier_name message.when) states))

-- The loop over the messages.
unfoldable pub assemble : ProtocolDescription → Transitions → States → States
unfolding assemble_message transition_named
assemble [] transitions states = states
assemble ((name, message) ∷ rest) transitions states =
    assemble rest transitions
      (assemble_message name message (transition_named name transitions) states)

unfoldable pub agent_of : ProtocolDescription → Option Transitions → Option Agent
unfolding assemble
agent_of protocol none = none
agent_of protocol (some transitions) = some (record { states = assemble protocol transitions [] })

unfoldable pub analyze_agent : ProtocolDescription → Bytes → Option Agent
unfolding agent_of analyze_transitions
analyze_agent protocol agent_name = agent_of protocol (analyze_transitions agent_name protocol)

abbrev pub client_name : Bytes
client_name = codes "Client"

abbrev pub server_name : Bytes
server_name = codes "Server"

unfoldable pub both_agents : Option Agent → Option Agent → Option Protocol
both_agents (some c) (some s) = some (record { client = some c; server = some s })
both_agents _ _ = none

unfoldable pub analyze : ProtocolDescription → Option Protocol
unfolding both_agents analyze_agent
analyze protocol =
    both_agents (analyze_agent protocol client_name) (analyze_agent protocol server_name)
