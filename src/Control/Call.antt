-- ===== src/Control/Call.antt =====
-- operation/functioncall.cpp and operation/if.cpp: one call, whose value is the operation's value.
use building_programming_lan.Prelude.{true, false, none, some, if◌then◌else◌}
use building_programming_lan.Outcome.{ok}
use building_programming_lan.Value.{
  Value, bool, callable, list, runtime_error, control_flow, type_error, to_list, value,
}
use building_programming_lan.Control.{ControlContext, Step, invoke, await_result}

-- The overloads of `_function_call`.
unfoldable pub start_call : ControlContext → Value → Value → Step
unfolding to_list
start_call ctx (callable t names h) (list args) =
    ok (record ctx { callable = some (callable t names h); arglist = some (to_list args) }, invoke)
start_call ctx (callable t names h) (runtime_error e) = ok (ctx, value (runtime_error e))
start_call ctx f args = ok (ctx, value (runtime_error type_error))

-- What FunctionCall and If do once the callable is known.
unfoldable pub continue_call : ControlContext → Step
continue_call ctx = elim ctx.callable_invoked [
  | true ↦ elim ctx.value [ some v ↦ ok (ctx, value v) | none ↦ ok (ctx, await_result) ]
  | false ↦ ok (ctx, invoke)
]

unfoldable pub function_call : ControlContext → Value → Value → Step
unfolding start_call continue_call
function_call ctx f args = elim ctx.callable [
  | some c ↦ continue_call ctx
  | none ↦ start_call ctx f args
]

-- The overloads of `_if`, in the order in which they are picked: the condition, then the first
-- branch, then the second.
unfoldable pub choose : ControlContext → Value → Value → Value → Step
choose ctx (bool cond) (callable t names h) (callable u names' h') = ok (
  record ctx { callable = some (if cond then callable t names h else callable u names' h') },
  invoke,
)
choose ctx (bool cond) (callable t names h) (runtime_error e) = ok (ctx, value (runtime_error e))
choose ctx (bool cond) (callable t names h) (control_flow c) = ok (ctx, value (control_flow c))
choose ctx (bool cond) (runtime_error e) _else = ok (ctx, value (runtime_error e))
choose ctx (bool cond) (control_flow c) _else = ok (ctx, value (control_flow c))
choose ctx (runtime_error e) _then _else = ok (ctx, value (runtime_error e))
choose ctx (control_flow c) _then _else = ok (ctx, value (control_flow c))
choose ctx _ _ _ = ok (ctx, value (runtime_error type_error))

unfoldable pub if_operation : ControlContext → Value → Value → Value → Step
unfolding choose continue_call
if_operation ctx cond _then _else = elim ctx.callable [
  | some c ↦ continue_call ctx
  | none ↦ choose ctx cond _then _else
]
