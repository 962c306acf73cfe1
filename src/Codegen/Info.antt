-- ===== src/Codegen/Info.antt =====
-- codegen/protocolinfo.cpp: the states, messages and transitions that the generators of C++ read. A
-- `std::set` is a list in its order; an `std::unordered_set` is a list.
use building_programming_lan.Prelude.{
  Bool, true, false, Option, none, some, List, [], ◌∷◌, ◌++◌, if◌then◌else◌, ltb,
}
use building_programming_lan.Bytes.{Bytes, codes, eq_bytes}
use building_programming_lan.Syntax.{MessageData}
use building_programming_lan.Sema.{
  Actions, AbstractTransition, Transition, read_transition, write_transition, State, Agent,
  Protocol,
}
use building_programming_lan.Codegen.{CharacterClasses, message_name_to_identifier}

pub record MessageInfo : Type 0 where
  pub name : Bytes
  pub identifier : Bytes
  pub when_state : Bytes
  pub then_state : Bytes
  pub agent : Bytes
  pub data_fields : Option MessageData

-- `ReadTransitionInfo` and `WriteTransitionInfo`, which have the same fields.
pub record TransitionSummary : Type 0 where
  pub message_name : Bytes
  pub identifier : Bytes
  pub when_state : Bytes
  pub then_state : Bytes
  pub agent : Bytes
  pub actions : Actions
  pub data_fields : Option MessageData

-- `operator<` of strings
unfoldable pub less_bytes : Bytes → Bytes → Bool
less_bytes xs [] = false
less_bytes [] (y ∷ ys) = true
less_bytes (x ∷ xs) (y ∷ ys) =
    let later = less_bytes xs ys in if ltb x y then true else if ltb y x then false else later

-- `std::set::insert`
unfoldable pub insert_name : Bytes → List Bytes → List Bytes
unfolding less_bytes eq_bytes
insert_name x [] = x ∷ []
insert_name x (y ∷ ys) =
    let later = insert_name x ys in
    if eq_bytes x y then y ∷ ys else if less_bytes x y then x ∷ y ∷ ys else y ∷ later

-- Whether `insert` finds the name.
unfoldable pub seen : Bytes → List Bytes → Bool
unfolding eq_bytes
seen x [] = false
seen x (y ∷ ys) = if eq_bytes x y then true else seen x ys

abbrev pub Transitions : Type 0
Transitions = List (Bytes × Transition × Bytes)

unfoldable pub collect_targets : Transitions → List Bytes → List Bytes
unfolding insert_name
collect_targets [] states = states
collect_targets ((msg_name, transition, target) ∷ rest) states =
    collect_targets rest (insert_name target states)

unfoldable pub collect_agent_states : List (Bytes × State) → List Bytes → List Bytes
unfolding insert_name collect_targets
collect_agent_states [] states = states
collect_agent_states ((state_name, s) ∷ rest) states =
    collect_agent_states rest (collect_targets s.transitions (insert_name state_name states))

unfoldable pub with_agent : {A : Type 0} → (List (Bytes × State) → A → A) → Option Agent → A → A
with_agent f none a = a
with_agent f (some agent) a = f agent.states a

unfoldable pub collect_states : Protocol → List Bytes
unfolding with_agent collect_agent_states
collect_states protocol =
    with_agent collect_agent_states protocol.server
      (with_agent collect_agent_states protocol.client [])

unfoldable pub transition_data : Transition → Option MessageData
transition_data (read_transition t) = t.data_fields
transition_data (write_transition t) = t.data_fields

-- The names that were seen, and the vector.
abbrev pub Collected : Type 0 → Type 0
Collected A = List Bytes × List A

-- `seen.insert(name)`, and the vector with what is pushed where the name is new.
unfoldable pub push_new : {A : Type 0} → Bytes → A → Collected A → Collected A
unfolding seen
push_new name info (names, infos) =
    if seen name names then (names, infos) else (name ∷ names, infos ++ info ∷ [])

module _ (classes : CharacterClasses) where
  unfoldable pub message_info : Bytes → Bytes → Bytes × Transition × Bytes → MessageInfo
  unfolding message_name_to_identifier transition_data
  message_info agent_name state_name (msg_name, transition, target) = record {
    name = msg_name;
    identifier = message_name_to_identifier classes msg_name;
    when_state = state_name;
    then_state = target;
    agent = agent_name;
    data_fields = transition_data transition;
  }

  unfoldable pub collect_state_messages :
      Bytes → Bytes → Transitions → Collected MessageInfo → Collected MessageInfo
  unfolding push_new message_info
  collect_state_messages agent_name state_name [] c = c
  collect_state_messages agent_name state_name (t ∷ rest) c =
      collect_state_messages agent_name state_name rest
        (push_new t.0 (message_info agent_name state_name t) c)

  unfoldable pub collect_agent_messages :
      Bytes → List (Bytes × State) → Collected MessageInfo → Collected MessageInfo
  unfolding collect_state_messages
  collect_agent_messages agent_name [] c = c
  collect_agent_messages agent_name ((state_name, s) ∷ rest) c =
      collect_agent_messages agent_name rest
        (collect_state_messages agent_name state_name s.transitions c)

  unfoldable pub collect_messages : Protocol → List MessageInfo
  unfolding with_agent collect_agent_messages
  collect_messages protocol =
      (with_agent (collect_agent_messages (codes "Server")) protocol.server
        (with_agent (collect_agent_messages (codes "Client")) protocol.client ([], []))).1

  unfoldable pub transition_summary :
      Bytes → Bytes → Bytes → Bytes → AbstractTransition → TransitionSummary
  unfolding message_name_to_identifier
  transition_summary agent_name state_name msg_name target t = record {
    message_name = msg_name;
    identifier = message_name_to_identifier classes msg_name;
    when_state = state_name;
    then_state = target;
    agent = agent_name;
    actions = t.actions;
    data_fields = t.data_fields;
  }

  -- The transitions that are read, and those that are written.
  abbrev pub Summaries : Type 0
  Summaries = Collected TransitionSummary × Collected TransitionSummary

  unfoldable pub collect_transition :
      Bytes → Bytes → Bytes × Transition × Bytes → Summaries → Summaries
  unfolding push_new transition_summary
  collect_transition agent_name state_name (msg_name, read_transition t, target) (reads, writes) =
      (push_new msg_name (transition_summary agent_name state_name msg_name target t) reads, writes)
  collect_transition agent_name state_name (msg_name, write_transition t, target) (reads, writes) =
      (reads, push_new msg_name (transition_summary agent_name state_name msg_name target t) writes)

  unfoldable pub collect_state_transitions : Bytes → Bytes → Transitions → Summaries → Summaries
  unfolding collect_transition
  collect_state_transitions agent_name state_name [] c = c
  collect_state_transitions agent_name state_name (t ∷ rest) c =
      collect_state_transitions agent_name state_name rest
        (collect_transition agent_name state_name t c)

  unfoldable pub collect_agent_transitions : Bytes → List (Bytes × State) → Summaries → Summaries
  unfolding collect_state_transitions
  collect_agent_transitions agent_name [] c = c
  collect_agent_transitions agent_name ((state_name, s) ∷ rest) c =
      collect_agent_transitions agent_name rest
        (collect_state_transitions agent_name state_name s.transitions c)

  unfoldable pub collect_transitions : Protocol → Summaries
  unfolding with_agent collect_agent_transitions
  collect_transitions protocol =
      with_agent (collect_agent_transitions (codes "Server")) protocol.server (
        with_agent (collect_agent_transitions (codes "Client")) protocol.client
          (([], []), ([], [])))
