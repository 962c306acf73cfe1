-- ===== src/Generate/States.antt =====
-- generate.cpp, from the trees of a transition to the state machine of an agent.
pub mod Outline
pub mod Conditions
pub mod Directed
pub mod Callbacks
use building_programming_lan.Prelude.{
  Bool, true, false, Option, none, some, List, [], ◌∷◌, if◌then◌else◌,
}
use building_programming_lan.Bytes.{Bytes, eq_bytes, codes}
use building_programming_lan.Outcome.{Outcome, ok, fault, ◌>>?◌}
use building_programming_lan.Value.{
  Condition, eof_condition, match_until_terminator, static_string, Operation, OpTreeNode, node,
  OpTreeNodes, OpTree, optree, StateMap, no_state, state, TransitionMap, no_transition, transition,
  dynamic_list, op_sequence, lexical_pad_get, lexical_pad_as_dict, transition_lookahead,
  unary_callback, state_machine,
}
use building_programming_lan.Control.Machine.{closed_name, dictionary_name}
use building_programming_lan.Sema.{
  Action, action_read_static_octets, action_read_octets_until_terminator, action_loop, Actions,
  no_action, action, AbstractTransition, Transition, read_transition, write_transition, State,
  Agent, Protocol,
}
use building_programming_lan.Generate.{
  TransitionType, read, write, node_0, node_1, node_2, extract_argument_names, extract_type,
}
use building_programming_lan.Generate.Visit.{actions_to_optreenodes}

abbrev pub transition_tree : OpTreeNodes → OpTree
transition_tree ops =
    optree
      (node_2 op_sequence (node op_sequence ops) (node_1 dynamic_list (node_0 lexical_pad_as_dict)))

unfoldable pub generate_transition_optree :
    TransitionType → AbstractTransition → Outcome (Option OpTree)
unfolding actions_to_optreenodes extract_type
generate_transition_optree t tr =
    actions_to_optreenodes t (extract_type tr.data_fields) tr.actions >>? λ ops.
    ok (some (transition_tree ops))

-- StateMachineOperation::TransitionInfo
pub record TransitionInfo : Type 0 where
  pub optree : OpTree
  pub argument_names : List Bytes
  pub target_state : Bytes

unfoldable pub generate_transition_info :
    TransitionType → AbstractTransition → Bytes → Outcome (Option TransitionInfo)
unfolding generate_transition_optree extract_argument_names
generate_transition_info t tr target = generate_transition_optree t tr >>? λ tree.
    ok (extract_argument_names tr.data_fields) >>? λ names.
    ok (some (record { optree = tree; argument_names = names; target_state = target }))

-- The type of a transition and its members.
abbrev pub transition_type : Transition → TransitionType
transition_type (read_transition tr) = read
transition_type (write_transition tr) = write

abbrev pub abstract_transition : Transition → AbstractTransition
abstract_transition (read_transition tr) = tr
abstract_transition (write_transition tr) = tr

-- `visit_transition`, whose overloads differ in the type alone.
unfoldable pub visit_transition :
    Transition → Bytes → Outcome (Option (TransitionType × TransitionInfo))
unfolding generate_transition_info
visit_transition t target =
    generate_transition_info (transition_type t) (abstract_transition t) target >>? λ info.
    ok (some (transition_type t, info))

-- The overloads of `get_transition_condition` on an action; a loop has that of its first action.
unfoldable mutual
  pub action_condition : Action → Option Condition
  action_condition (action_read_octets_until_terminator terminator id escape) =
      some (match_until_terminator terminator)
  action_condition (action_read_static_octets octets) = some (static_string octets)
  action_condition (action_loop variable collection terminator actions) = front_condition actions
  action_condition _ = none

  pub front_condition : Actions → Option Condition
  front_condition no_action = none
  front_condition (action a rest) = action_condition a

unfoldable pub get_transition_condition : Transition → Option Condition
unfolding front_condition
get_transition_condition (write_transition tr) = none
get_transition_condition (read_transition tr) = front_condition tr.actions

-- What a transition's name is put after: the end of input where it leads to `Closed`.
unfoldable pub condition_for : Bytes → Transition → Option Condition
unfolding get_transition_condition eq_bytes
condition_for target t =
    if eq_bytes target closed_name then some eof_condition else get_transition_condition t

unfoldable pub add_condition :
    Bytes → Option Condition → Option (List (Condition × Bytes)) → Option (List (Condition × Bytes))
add_condition name (some c) (some rest) = some ((c, name) ∷ rest)
add_condition name _ _ = none

unfoldable pub conditions_of : List (Bytes × Transition × Bytes) → Option (List (Condition × Bytes))
unfolding condition_for add_condition
conditions_of [] = some []
conditions_of ((name, t, target) ∷ rest) =
    add_condition name (condition_for target t) (conditions_of rest)

unfoldable pub read_callback : Option (List (Condition × Bytes)) → Option OpTree
read_callback none = none
read_callback (some []) = none
read_callback (some (c ∷ cs)) = some (
    optree (
      node_2 dynamic_list (node_0 (transition_lookahead (c ∷ cs)))
        (node_0 (lexical_pad_get dictionary_name))))

unfoldable pub generate_read_state_callback : State → Option OpTree
unfolding conditions_of read_callback
generate_read_state_callback s = read_callback (conditions_of s.transitions)

-- `state_transitions_type`: the type so far, if it goes with one more transition.
unfoldable pub agree : Option TransitionType → TransitionType → Bool
agree none t = true
agree (some read) read = true
agree (some write) write = true
agree (some _) _ = false

-- The loop over the transitions of a state, with the type so far.
unfoldable pub add_transition :
    Bytes
    → TransitionInfo
    → TransitionMap × Option TransitionType
    → TransitionMap × Option TransitionType
add_transition name info (ts, type) =
    (transition name info.optree info.argument_names info.target_state ts, type)

unfoldable pub construct_transitions :
    Option TransitionType
    → List (Bytes × Transition × Bytes)
    → Outcome (Option (TransitionMap × Option TransitionType))
unfolding visit_transition agree add_transition
construct_transitions so_far [] = ok (some (no_transition, so_far))
construct_transitions so_far ((name, t, target) ∷ rest) = visit_transition t target >>? λ found.
    let after = construct_transitions (some found.0) rest in
    if agree so_far found.0
    then (after >>? λ result. ok (some (add_transition name found.1 result)))
    else ok none

unfoldable pub unary_state_callback : Bytes → OpTree
unary_state_callback name =
    optree (node_1 (unary_callback name) (node_0 (lexical_pad_get dictionary_name)))

-- The callback of a state that is not `Closed`.
unfoldable pub open_state_callback : Bytes → State → Option TransitionType → Option OpTree
unfolding generate_read_state_callback unary_state_callback
open_state_callback name s (some write) = some (unary_state_callback name)
open_state_callback name s _ = generate_read_state_callback s

unfoldable pub state_callback : Bytes → State → Option TransitionType → Option OpTree
unfolding open_state_callback eq_bytes unary_state_callback
state_callback name s type =
    if eq_bytes name closed_name
    then some (unary_state_callback name)
    else open_state_callback name s type

-- The loop of `construct_state_map` and its test for an empty map.
unfoldable pub construct_states : List (Bytes × State) → Outcome (Option StateMap)
unfolding construct_transitions state_callback
construct_states [] = ok (some no_state)
construct_states ((name, s) ∷ rest) = construct_transitions none s.transitions >>? λ result.
    ok (state_callback name s result.1) >>? λ callback.
    construct_states rest >>? λ states. ok (some (state name callback result.0 states))

unfoldable pub construct_state_map : List (Bytes × State) → Outcome (Option StateMap)
unfolding construct_states
construct_state_map [] = ok none
construct_state_map (s ∷ states) = construct_states (s ∷ states)

unfoldable pub machine : Option Agent → Outcome (Option OpTree)
unfolding construct_state_map
machine none = ok none
machine (some agent) = construct_state_map agent.states >>? λ states.
    ok (some (optree (node_0 (state_machine states))))

-- `generate::client` and `generate::server`, on a pointer that may be null.
unfoldable pub client : Option Protocol → Outcome (Option OpTree)
unfolding machine
client none = ok none
client (some protocol) = machine protocol.client

unfoldable pub server : Option Protocol → Outcome (Option OpTree)
unfolding machine
server none = ok none
server (some protocol) = machine protocol.server
