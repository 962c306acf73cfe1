-- ===== src/Control/Machine.antt =====
-- operation/statemachineoperation.cpp: the state machine of a protocol. In each state the state's
-- callback picks a transition; the transition's callback produces the next state's dictionary.
pub mod Automaton
pub mod Reach
use building_programming_lan.Prelude.{
  Bool, true, false, Option, none, some, List, [], ◌∷◌, if◌then◌else◌,
}
use building_programming_lan.Bytes.{Bytes, eq_bytes, codes}
use building_programming_lan.Outcome.{Outcome, ok, fault, bad_variant_access, assertion_failed}
use building_programming_lan.Value.{
  OpTree, StateMap, no_state, state, TransitionMap, no_transition, transition, Value, Values, nil,
  cons, Members, empty, bool, dictionary, callable, runtime_error, list, octets, type_error,
  name_error, value,
}
use building_programming_lan.Pad.{find_member}
use building_programming_lan.Control.{
  ControlContext, Step, invoke, await_result, StatePair, TransitionPair, ProcessingInfo,
  ProcessingMode, transition_mode, state_mode,
}

-- `states.find(name)`
unfoldable pub find_state : Bytes → StateMap → Option StatePair
unfolding eq_bytes
find_state name no_state = none
find_state name (state n t ts rest) =
    if eq_bytes n name
    then some (record { state_name = n; callback_optree = t; transitions = ts })
    else find_state name rest

-- `s.transitions.find(*t.data)`
unfoldable pub find_transition : Bytes → TransitionMap → Option TransitionPair
unfolding eq_bytes
find_transition name no_transition = none
find_transition name (transition n t names target rest) =
    if eq_bytes n name
    then some (record {
      transition_name = n;
      transition_optree = t;
      argument_names = names;
      target_state = target;
    })
    else find_transition name rest

-- `_extract_arguments`: a name that the dictionary lacks is passed as `false`.
unfoldable pub extract_arguments : List Bytes → Members → List Value
unfolding find_member
extract_arguments [] d = []
extract_arguments (n ∷ names) d =
    elim (find_member n d) [ none ↦ bool false | some v ↦ v ] ∷ extract_arguments names d

abbrev pub open_name : Bytes
open_name = codes "Open"

abbrev pub closed_name : Bytes
closed_name = codes "Closed"

abbrev pub dictionary_name : Bytes
dictionary_name = codes "dictionary"

unfoldable pub start_state_callback : ControlContext → ProcessingInfo → Step
start_state_callback ctx info = ok (
  record ctx {
    callable = some (callable info.to_state.callback_optree (dictionary_name ∷ []) true);
    value = none;
    additional_info = some (record info { processing_mode = state_mode });
  },
  invoke,
)

unfoldable pub start_transition_callback : ControlContext → ProcessingInfo → Step
start_transition_callback ctx info = elim info.transition [
  | none ↦ fault assertion_failed
  | some t ↦ ok (
    record ctx {
      callable = some (callable t.transition_optree t.argument_names true);
      value = none;
      additional_info = some (record info { processing_mode = transition_mode });
    },
    invoke,
  )
]

-- `info.from_state = info.to_state`, which is written before the transition is looked up.
abbrev pub leave : ControlContext → ProcessingInfo → ControlContext
leave ctx info = record ctx {
  additional_info = some (record info { from_state = some info.to_state });
}

-- The transition that was found, with the state that was found as its target.
unfoldable pub enter_state :
    ControlContext → ProcessingInfo → Members → TransitionPair → Option StatePair → Step
unfolding extract_arguments start_transition_callback
enter_state ctx info d tr none = ok (leave ctx info, value (runtime_error name_error))
enter_state ctx info d tr (some target) =
    start_transition_callback
      (record ctx { accumulator = some (extract_arguments tr.argument_names d) })
      (record info { from_state = some info.to_state; transition = some tr; to_state = target })

unfoldable pub follow :
    ControlContext → ProcessingInfo → StateMap → Members → Option TransitionPair → Step
unfolding find_state enter_state
follow ctx info states d none = ok (leave ctx info, value (runtime_error name_error))
follow ctx info states d (some tr) = enter_state ctx info d tr (find_state tr.target_state states)

-- `_process_state_return_with_args` for (Octets, Dictionary).
unfoldable pub take_transition : ControlContext → ProcessingInfo → StateMap → Bytes → Members → Step
unfolding eq_bytes find_transition follow
take_transition ctx info states t d =
    if eq_bytes info.to_state.state_name closed_name
    then ok (ctx, value (dictionary d))
    else follow ctx info states d (find_transition t info.to_state.transitions)

-- `_process_state_return` with the overloads that it visits.
unfoldable pub process_state_return : ControlContext → ProcessingInfo → StateMap → Value → Step
unfolding take_transition
process_state_return ctx info states (list (cons (octets t) (cons (dictionary d) nil))) =
    take_transition ctx info states t d
process_state_return ctx info states (runtime_error e) = ok (ctx, value (runtime_error e))
process_state_return ctx info states _ = ok (ctx, value (runtime_error type_error))

-- `_process_transition_return` with the overloads that it visits.
unfoldable pub process_transition_return : ControlContext → ProcessingInfo → Value → Step
unfolding start_state_callback
process_transition_return ctx info (list (cons (dictionary d) nil)) =
    start_state_callback (record ctx { accumulator = some (dictionary d ∷ []) }) info
process_transition_return ctx info (list (cons (runtime_error e) nil)) =
    ok (ctx, value (runtime_error e))
process_transition_return ctx info (runtime_error e) = ok (ctx, value (runtime_error e))
process_transition_return ctx info _ = ok (ctx, value (runtime_error type_error))

-- A callback has returned `v`, with the mode and the transition of the ProcessingInfo.
unfoldable pub process_mode :
    ControlContext
    → ProcessingInfo
    → StateMap
    → Value
    → ProcessingMode
    → Option TransitionPair
    → Step
unfolding process_state_return process_transition_return
process_mode ctx info states v transition_mode none = ok (ctx, value (runtime_error name_error))
process_mode ctx info states v transition_mode (some t) = process_transition_return ctx info v
process_mode ctx info states v state_mode o = process_state_return ctx info states v

unfoldable pub process_return : ControlContext → ProcessingInfo → StateMap → Value → Step
unfolding process_mode
process_return ctx info states v =
    process_mode ctx info states v info.processing_mode info.transition

-- The first call of the operator, with the state `Open` if there is one.
unfoldable pub open_machine : ControlContext → Option StatePair → Step
unfolding start_state_callback
open_machine ctx none = ok (ctx, value (runtime_error name_error))
open_machine ctx (some s) =
    start_state_callback (record ctx { accumulator = some (dictionary empty ∷ []) })
      (record {
        processing_mode = transition_mode;
        from_state = none;
        transition = none;
        to_state = s;
      })

-- A call has returned `v`; `std::any_cast` throws where no ProcessingInfo was stored.
unfoldable pub resume : ControlContext → Option ProcessingInfo → StateMap → Value → Step
unfolding process_return
resume ctx none states v = fault bad_variant_access
resume ctx (some info) states v = process_return ctx info states v

-- The tests of the operator on `callable`, `callable_invoked` and `value`.
unfoldable pub dispatch : StateMap → ControlContext → Option Value → Bool → Option Value → Step
unfolding open_machine resume find_state
dispatch states ctx none invoked v = open_machine ctx (find_state open_name states)
dispatch states ctx (some c) false v = ok (ctx, invoke)
dispatch states ctx (some c) true none = ok (ctx, await_result)
dispatch states ctx (some c) true (some v) = resume ctx ctx.additional_info states v

unfoldable pub execute : StateMap → ControlContext → Step
unfolding dispatch
execute states ctx = dispatch states ctx ctx.callable ctx.callable_invoked ctx.value
