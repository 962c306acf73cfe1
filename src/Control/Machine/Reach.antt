-- ===== src/Control/Machine/Reach.antt =====
-- The contexts that the state machine of operation/statemachineoperation.cpp reaches, and how it
-- ends.
use building_programming_lan.Prelude.{◌≡◌}
use building_programming_lan.Outcome.{ok}
use building_programming_lan.Value.{StateMap, Value, value, blocked, ReasonForBlockedOperation}
use building_programming_lan.Control.{
  ControlContext, new_control, set_callable_invoked, set_callable_return,
}
use building_programming_lan.Control.Machine.{execute}
use building_programming_lan.Control.Machine.Automaton.{Tracked, Ended, dispatch-Blocks}

-- The contexts of a machine: the interpreter marks calls and stores what they return, whatever it
-- is, and evaluates the operation for as long as it blocks.
pub data Reaches (states : StateMap) : ControlContext → Type 0 where
  fresh : Reaches states new_control
  called : {ctx : ControlContext} → Reaches states ctx → Reaches states (set_callable_invoked ctx)
  returned :
      {ctx : ControlContext} (v : Value)
      → Reaches states ctx
      → Reaches states (set_callable_return ctx v)
  evaluated :
      {ctx ctx' : ControlContext} {w : ReasonForBlockedOperation}
      → Reaches states ctx
      → execute states ctx ≡ ok (ctx', blocked w)
      → Reaches states ctx'

-- In every context that a machine reaches, the target state is one of the machine's under its own
-- name, and after the first transition that transition is one of the source state's and leads to
-- the target state.
pub Reaches-Tracked :
    (states : StateMap) (ctx : ControlContext) → Reaches states ctx → Tracked states ctx
unfolding new_control set_callable_invoked set_callable_return execute
Reaches-Tracked states _ fresh = tt
Reaches-Tracked states _ (called p) = Reaches-Tracked states _ p
Reaches-Tracked states _ (returned v p) = Reaches-Tracked states _ p
Reaches-Tracked states _ (evaluated {ctx} {ctx'} {w} p h) =
    dispatch-Blocks ctx states ctx.callable ctx.callable_invoked ctx.value (ctx', blocked w)
      (Reaches-Tracked states ctx p) h

-- If a machine ends, in a context that it reaches, its value is an error, or a dictionary and its
-- state is `Closed`.
pub Reaches-Ended :
    (states : StateMap) (ctx ctx' : ControlContext) (v : Value)
    → Reaches states ctx
    → execute states ctx ≡ ok (ctx', value v)
    → Ended v ctx'
unfolding execute
Reaches-Ended states ctx ctx' v p h =
    dispatch-Blocks ctx states ctx.callable ctx.callable_invoked ctx.value (ctx', value v)
      (Reaches-Tracked states ctx p) h
