-- ===== src/Generate/States/Outline.antt =====
-- generate.cpp: what of an agent stands in its generated state machine.
use building_programming_lan.Prelude.{
  ap, ◌∷◌, sym, ◌∙◌, map, ◌≡◌, refl, subst, Option, none, some, List, [],
}
use building_programming_lan.Bytes.{Bytes}
use building_programming_lan.Outcome.{ok}
use building_programming_lan.Value.{
  OpTree, StateMap, no_state, state, TransitionMap, no_transition, transition,
}
use building_programming_lan.Sema.{AbstractTransition, Transition, State}
use building_programming_lan.Generate.{TransitionType, extract_argument_names, keys}
use building_programming_lan.Syntax.{MessageData}
use building_programming_lan.Generate.Supplied.{
  Found, Found-option, Found-if, Found-bind, Found-then,
}
use building_programming_lan.Generate.States.{
  generate_transition_optree, TransitionInfo, generate_transition_info, transition_type,
  abstract_transition, visit_transition, agree, add_transition, construct_transitions,
  state_callback, construct_states, construct_state_map,
}

-- A transition's name, the names of its arguments, if there are any, and its target.
abbrev pub Entry : Type 0
Entry = Bytes × Option (List Bytes) × Bytes

unfoldable pub transition_entries : TransitionMap → List Entry
transition_entries no_transition = []
transition_entries (transition name t names target rest) =
    (name, some names, target) ∷ transition_entries rest

unfoldable pub state_entries : StateMap → List (Bytes × List Entry)
unfolding transition_entries
state_entries no_state = []
state_entries (state name t ts rest) = (name, transition_entries ts) ∷ state_entries rest

-- The names of a message's fields, in their order.
unfoldable pub field_names : Option MessageData → Option (List Bytes)
field_names none = none
field_names (some fields) = some (map (λ f. f.0) fields)

keys_lem : (fields : MessageData) → keys fields ≡ map (λ f. f.0) fields
unfolding keys
keys_lem [] = refl
keys_lem ((n, t) ∷ rest) = ap (◌∷◌ n) (keys_lem rest)

names_lem : (fields : Option MessageData) → extract_argument_names fields ≡ field_names fields
unfolding extract_argument_names field_names
names_lem none = refl
names_lem (some fields) = ap some (keys_lem fields)

-- The same of the analyzed agent: the arguments are the fields of the message.
unfoldable pub described_transitions : List (Bytes × Transition × Bytes) → List Entry
unfolding field_names
described_transitions [] = []
described_transitions ((name, t, target) ∷ rest) =
    (name, field_names (abstract_transition t).data_fields, target) ∷ described_transitions rest

unfoldable pub described_states : List (Bytes × State) → List (Bytes × List Entry)
unfolding described_transitions
described_states [] = []
described_states ((name, s) ∷ rest) =
    (name, described_transitions s.transitions) ∷ described_states rest

-- The information on a transition carries its arguments and its target.
Carries : AbstractTransition → Bytes → TransitionInfo → Type 0
Carries tr target i =
    (field_names tr.data_fields ≡ some i.argument_names) × (i.target_state ≡ target)

names-Carries :
    (t : TransitionType) (tr : AbstractTransition) (target : Bytes)
    → Found (Carries tr target) (generate_transition_info t tr target)
unfolding generate_transition_info Carries
names-Carries t tr target =
    Found-then (Carries tr target) (generate_transition_optree t tr) _ λ tree.
      Found-bind (Carries tr target) (λ names. extract_argument_names tr.data_fields ≡ some names)
        (ok (extract_argument_names tr.data_fields)) _
        (Found-option (extract_argument_names tr.data_fields))
        λ names e. (sym (names_lem tr.data_fields) ∙ e, refl)

visit-Carries :
    (t : Transition) (target : Bytes)
    → Found (λ r. Carries (abstract_transition t) target r.1) (visit_transition t target)
unfolding visit_transition
visit-Carries t target =
    Found-bind (λ (r : TransitionType × TransitionInfo). Carries (abstract_transition t) target r.1)
      (Carries (abstract_transition t) target)
      (generate_transition_info (transition_type t) (abstract_transition t) target) _
      (names-Carries (transition_type t) (abstract_transition t) target) λ i h. h

-- The transitions of a map are those described.
abbrev Describes :
    List (Bytes × Transition × Bytes) → TransitionMap × Option TransitionType → Type 0
Describes ts r = transition_entries r.0 ≡ described_transitions ts

add-Describes :
    (name : Bytes) (t : Transition) (target : Bytes) (rest : List (Bytes × Transition × Bytes))
    (i : TransitionInfo) (r : TransitionMap × Option TransitionType)
    → Carries (abstract_transition t) target i
    → Describes rest r
    → Describes ((name, t, target) ∷ rest) (add_transition name i r)
unfolding Carries add_transition transition_entries described_transitions
add-Describes name t target rest i r (names, targets) h = rw (names, targets, h) refl

transitions-Describes :
    (so_far : Option TransitionType) (ts : List (Bytes × Transition × Bytes))
    → Found (Describes ts) (construct_transitions so_far ts)
unfolding construct_transitions transition_entries described_transitions
transitions-Describes so_far [] = refl
transitions-Describes so_far ((name, t, target) ∷ rest) =
    Found-bind (Describes ((name, t, target) ∷ rest))
      (λ (r : TransitionType × TransitionInfo). Carries (abstract_transition t) target r.1)
      (visit_transition t target) _ (visit-Carries t target)
      λ found h.
        Found-if (Describes ((name, t, target) ∷ rest)) (agree so_far found.0) _ _
          (Found-bind (Describes ((name, t, target) ∷ rest)) (Describes rest)
            (construct_transitions (some found.0) rest) _
            (transitions-Describes (some found.0) rest)
            λ r k. add-Describes name t target rest found.1 r h k)
          tt

add_state-entries :
    (name : Bytes) (s : State) (rest : List (Bytes × State)) (t : OpTree) (ts : TransitionMap)
    (m : StateMap)
    → transition_entries ts ≡ described_transitions s.transitions
    → state_entries m ≡ described_states rest
    → state_entries (state name t ts m) ≡ described_states ((name, s) ∷ rest)
unfolding state_entries described_states
add_state-entries name s rest t ts m h k = rw (h, k) refl

states-entries :
    (ss : List (Bytes × State))
    → Found (λ m. state_entries m ≡ described_states ss) (construct_states ss)
unfolding construct_states state_entries described_states
states-entries [] = refl
states-entries ((name, s) ∷ rest) =
    Found-bind (λ (m : StateMap). state_entries m ≡ described_states ((name, s) ∷ rest))
      (Describes s.transitions) (construct_transitions none s.transitions) _
      (transitions-Describes none s.transitions)
      λ r h.
        Found-then (λ (m : StateMap). state_entries m ≡ described_states ((name, s) ∷ rest))
          (ok (state_callback name s r.1)) _
          λ callback.
            Found-bind (λ (m : StateMap). state_entries m ≡ described_states ((name, s) ∷ rest))
              (λ (m : StateMap). state_entries m ≡ described_states rest) (construct_states rest) _
              (states-entries rest) λ m k. add_state-entries name s rest callback r.0 m h k

map-entries :
    (ss : List (Bytes × State))
    → Found (λ m. state_entries m ≡ described_states ss) (construct_state_map ss)
unfolding construct_state_map
map-entries [] = tt
map-entries (s ∷ ss) = states-entries (s ∷ ss)

-- A generated state machine has the states of the agent, in their order, each with the names of its
-- transitions and their target states, and the arguments of a transition's callback are the fields
-- of its message.
pub entries_lem :
    (ss : List (Bytes × State)) (m : StateMap)
    → construct_state_map ss ≡ ok (some m)
    → state_entries m ≡ described_states ss
entries_lem ss m e =
    subst (Found (λ (n : StateMap). state_entries n ≡ described_states ss)) e (map-entries ss)
