-- ===== src/Samples/Machines.antt =====
-- The theorems on state machines at a machine with two states.
use building_programming_lan.Prelude.{◌≡◌, refl, []}
use building_programming_lan.Prelude.Int.{pos}
use building_programming_lan.Bytes.{codes, eq_bytes}
use building_programming_lan.Outcome.{ok, fault}
use building_programming_lan.Value.{
  OpTree, optree, node, leaf, int32_literal, StateMap, no_state, state, no_transition, transition,
  Value, list, cons, nil, octets, dictionary, empty, value,
}
use building_programming_lan.Control.{
  ControlContext, Step, new_control, set_callable_invoked, set_callable_return, invoke,
}
use building_programming_lan.Control.Machine.{execute}
use building_programming_lan.Control.Machine.Automaton.{Tracked, Ended}
use building_programming_lan.Control.Machine.Reach.{
  Reaches, fresh, called, returned, evaluated, Reaches-Tracked, Reaches-Ended,
}

abbrev body : OpTree
body = optree (node (int32_literal (pos 7)) leaf)

-- `Open` leads to `Closed` by the transition `go`.
abbrev states : StateMap
states =
    state (codes "Open") body (transition (codes "go") body [] (codes "Closed") no_transition)
      (state (codes "Closed") body no_transition no_state)

-- The context of a step, with a default that is not taken.
abbrev context_of : Step → ControlContext
context_of (ok (ctx, _)) = ctx
context_of (fault _) = new_control

abbrev answer : ControlContext → Value → ControlContext
answer ctx v = set_callable_return (set_callable_invoked ctx) v

answer-Reaches :
    (ctx : ControlContext) (v : Value) → Reaches states ctx → Reaches states (answer ctx v)
answer-Reaches ctx v p = returned v (called p)

-- The state's callback picks `go`, and in `Closed` a name that is not looked at.
abbrev choice : Value
choice = list (cons (octets (codes "go")) (cons (dictionary empty) nil))

abbrev opened : ControlContext
opened = context_of (execute states new_control)

opens : execute states new_control ≡ ok (opened, invoke)
unfolding execute new_control eq_bytes
opens = refl

abbrev going : ControlContext
going = context_of (execute states (answer opened choice))

goes : execute states (answer opened choice) ≡ ok (going, invoke)
unfolding execute new_control eq_bytes set_callable_invoked set_callable_return
goes = refl

-- The transition's callback has given its dictionary.
abbrev closing : ControlContext
closing = context_of (execute states (answer going (list (cons (dictionary empty) nil))))

closes : execute states (answer going (list (cons (dictionary empty) nil))) ≡ ok (closing, invoke)
unfolding execute new_control eq_bytes set_callable_invoked set_callable_return
closes = refl

closing-Reaches : Reaches states closing
closing-Reaches =
    evaluated
      (answer-Reaches going _ (evaluated (answer-Reaches opened _ (evaluated fresh opens)) goes))
      closes

Reaches-Tracked_example : Tracked states closing
Reaches-Tracked_example = Reaches-Tracked states closing closing-Reaches

ends : execute states (answer closing choice) ≡ ok (answer closing choice, value (dictionary empty))
unfolding execute new_control eq_bytes set_callable_invoked set_callable_return
ends = refl

Reaches-Ended_example : Ended (dictionary empty) (answer closing choice)
Reaches-Ended_example =
    Reaches-Ended states (answer closing choice) (answer closing choice) (dictionary empty)
      (answer-Reaches closing choice closing-Reaches) ends
