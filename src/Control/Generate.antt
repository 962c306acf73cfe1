-- ===== src/Control/Generate.antt =====
-- operation/generatelist.cpp: one call after the other until one returns InterruptGenerator.
use building_programming_lan.Prelude.{Bool, true, false, none, some, List, [], ◌∷◌, ◌++◌, ◌&&◌}
use building_programming_lan.Bytes.{Bytes}
use building_programming_lan.Outcome.{Outcome, ok, fault, null_dereference, ◌>>=◌}
use building_programming_lan.Value.{
  Value, callable, list, runtime_error, control_flow, interrupt_generator, type_error, of_list,
  value, blocked, OperationResult,
}
use building_programming_lan.Control.{
  ControlContext, Step, invoke, await_result, set_callable_invoked, set_callable_return,
}

unfoldable pub start : ControlContext → Value → Step
start ctx (callable t names h) =
    ok (record ctx { callable = some (callable t names h); accumulator = some [] }, invoke)
start ctx f = ok (ctx, value (runtime_error type_error))

-- A call has returned `v`, with `done` the values before it.
unfoldable pub collect : ControlContext → List Value → Value → Step
unfolding of_list
collect ctx done (control_flow interrupt_generator) = ok (ctx, value (list (of_list done)))
collect ctx done (runtime_error e) = ok (ctx, value (runtime_error e))
collect ctx done v = ok (
  record ctx { accumulator = some (done ++ v ∷ []); callable_invoked = false; value = none },
  invoke,
)

unfoldable pub execute : ControlContext → Value → Step
unfolding start collect
execute ctx f = elim ctx.callable [
  | none ↦ start ctx f
  | some c ↦ elim ctx.callable_invoked [
    | false ↦ ok (ctx, invoke)
    | true ↦ elim ctx.value [
      | none ↦ ok (ctx, await_result)
      | some v ↦ elim ctx.accumulator [
        | none ↦ fault null_dereference
        | some done ↦ collect ctx done v
      ]
    ]
  ]
]

-- The interpreter's side: the calls return the values of `results` in order, until the operation
-- has a value.
pub protocol : ControlContext → Value → List Value → Outcome OperationResult
protocol ctx f [] = ok invoke
protocol ctx f (r ∷ results) =
    execute (set_callable_return (set_callable_invoked ctx) r) f
    >>= (λ s. elim s.1 [ value v ↦ ok (value v) | blocked w ↦ protocol s.0 f results ])

-- Neither an error nor an instruction.
abbrev pub is_plain : Value → Bool
is_plain (runtime_error e) = false
is_plain (control_flow c) = false
is_plain v = true

abbrev pub all_plain : List Value → Bool
all_plain [] = true
all_plain (v ∷ vs) = is_plain v && all_plain vs

waiting : Value → List Value → ControlContext
waiting c done = record {
  callable = some c;
  value = none;
  arglist = none;
  accumulator = some done;
  callable_invoked = false;
  additional_info = none;
}
