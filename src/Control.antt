-- ===== src/Control.antt =====
-- ControlFlowOperationContext of operationconcepts.hpp and what the control flow operations share:
-- each keeps a callable that the interpreter is to invoke and the value that the call returned.
-- `std::any additional_info` is only used by StateMachineOperation, with ProcessingInfo.
pub mod Call
pub mod ForEach
pub mod Generate
pub mod Machine
use building_programming_lan.Prelude.{Bool, false, true, Option, none, some, List}
use building_programming_lan.Bytes.{Bytes}
use building_programming_lan.Outcome.{Outcome, ok, fault, assertion_failed}
use building_programming_lan.Value.{
  OpTree, TransitionMap, Value, OperationResult, blocked, waiting_for_callable_invocation,
  waiting_for_callable_result,
}

pub data ProcessingMode : Type 0 where
  transition_mode state_mode : ProcessingMode

-- StatePair: a state's name, its callback and its transitions.
pub record StatePair : Type 0 where
  pub state_name : Bytes
  pub callback_optree : OpTree
  pub transitions : TransitionMap

pub record TransitionPair : Type 0 where
  pub transition_name : Bytes
  pub transition_optree : OpTree
  pub argument_names : List Bytes
  pub target_state : Bytes

pub record ProcessingInfo : Type 0 where
  pub processing_mode : ProcessingMode
  pub from_state : Option StatePair
  pub transition : Option TransitionPair
  pub to_state : StatePair

-- `none` for `arglist` and `accumulator` is the null pointer.
pub record ControlContext : Type 0 where
  pub callable : Option Value
  pub value : Option Value
  pub arglist : Option (List Value)
  pub accumulator : Option (List Value)
  pub callable_invoked : Bool
  pub additional_info : Option ProcessingInfo

unfoldable pub new_control : ControlContext
new_control = record {
  callable = none;
  value = none;
  arglist = none;
  accumulator = none;
  callable_invoked = false;
  additional_info = none;
}

-- `get_callable`, `set_callable_invoked` and `set_callable_return` are the same in every operation.
unfoldable pub get_callable : ControlContext → Outcome Value
get_callable ctx = elim ctx.callable [ some c ↦ ok c | none ↦ fault assertion_failed ]

unfoldable pub set_callable_invoked : ControlContext → ControlContext
set_callable_invoked ctx = record ctx { callable_invoked = true }

unfoldable pub set_callable_return : ControlContext → Value → ControlContext
set_callable_return ctx v = record ctx { value = some v }

-- The result of an operation on its context.
abbrev pub Step : Type 0
Step = Outcome (ControlContext × OperationResult)

abbrev pub invoke : OperationResult
invoke = blocked waiting_for_callable_invocation

abbrev pub await_result : OperationResult
await_result = blocked waiting_for_callable_result
