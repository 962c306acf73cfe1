-- ===== src/Interpreter.antt =====
-- interpreter.hpp: the stack of continuations, one for each call that has not returned.
pub mod Call
use building_programming_lan.Prelude.{
  ℕ, Bool, Option, none, some, List, [], ◌∷◌, length, if◌then◌else◌,
}
use building_programming_lan.Bytes.{Bytes}
use building_programming_lan.Outcome.{
  Outcome, ok, fault, ◌>>=◌, bad_variant_access, null_dereference, empty_stack,
}
use building_programming_lan.Value.{
  OpTree, Value, callable, OperationResult, value, blocked, waiting_for_callable_invocation,
}
use building_programming_lan.Pad.{PadStore, make_pad, initialize}
use building_programming_lan.Frame.Execute.{Globals}
use building_programming_lan.Continuation.{
  Continuation, ContinuationState, missing_arguments, ready, blocked_state, exited,
  new_continuation, prepare, step,
}
use building_programming_lan.Continuation.Events

pub record Interpreter : Type 0 where
  pub rootpad : ℕ
  pub continuation_stack : List Continuation

unfoldable pub new_interpreter : OpTree → ℕ → Interpreter
unfolding new_continuation
new_interpreter o p = record { rootpad = p; continuation_stack = new_continuation o p ∷ [] }

-- The loop over the argument names: it stops at the end of the arguments, and reads the list only
-- if there is a name.
unfoldable pub bind_arguments : List Bytes → Option (List Value) → ℕ → PadStore → Outcome PadStore
unfolding initialize
bind_arguments [] args p s = ok s
bind_arguments (n ∷ names) none p s = fault null_dereference
bind_arguments (n ∷ names) (some []) p s = ok s
bind_arguments (n ∷ names) (some (v ∷ args)) p s =
    bind_arguments names (some args) p (initialize s p n v)

-- `prepare` of the continuation on top; its state is what the step returns.
unfoldable pub prepare_top :
    Interpreter
    → Continuation
    → List Continuation
    → Globals
    → Outcome (ContinuationState × Interpreter × Globals)
unfolding prepare
prepare_top i c rest g =
    prepare c.stack
    >>= (λ p. ok (p.1, record i { continuation_stack = record c { stack = p.0 } ∷ rest }, g))

-- The branch of a blocked step that waits for a call: a new pad below the caller's or the root, with
-- the arguments, and a new continuation.
unfoldable pub invoke_callable :
    Interpreter
    → Continuation
    → List Continuation
    → Globals
    → Value
    → Outcome (ContinuationState × Interpreter × Globals)
unfolding Events.set_callable_invoked Events.get_argument_list bind_arguments make_pad
    new_continuation prepare_top
invoke_callable i c rest g (callable tree names inherits) = Events.set_callable_invoked c >>= (λ c'.
    Events.get_argument_list c' >>= (λ args.
      bind_arguments names args (length g.pads)
        (make_pad g.pads (some (if inherits then c.pad else i.rootpad)))
      >>= (λ s.
          prepare_top i (new_continuation tree (length g.pads)) (c' ∷ rest)
            (record g { pads = s }))))
invoke_callable i c rest g v = fault bad_variant_access

-- What `Interpreter::step` does once the continuation on top has made its step.
unfoldable pub after_step :
    Interpreter
    → Continuation
    → List Continuation
    → Globals
    → Outcome (ContinuationState × Interpreter × Globals)
unfolding Events.get_callable Events.set_callable_return invoke_callable prepare_top
after_step i c rest g = elim c.state [
  | blocked_state ↦ elim c.result [
    | value v ↦ fault bad_variant_access
    | blocked waiting_for_callable_invocation ↦
        Events.get_callable c >>= (λ v. invoke_callable i c rest g v)
    | blocked _ ↦ ok (blocked_state, record i { continuation_stack = c ∷ rest }, g)
  ]
  | exited ↦ elim c.result [
    | blocked r ↦ fault bad_variant_access
    | value v ↦ elim rest [
      | [] ↦ ok (exited, record i { continuation_stack = c ∷ [] }, g)
      | d ∷ rest' ↦ Events.set_callable_return d v >>= (λ d'. prepare_top i d' rest' g)
    ]
  ]
  | ready ↦ ok (ready, record i { continuation_stack = c ∷ rest }, g)
  | missing_arguments ↦ ok (missing_arguments, record i { continuation_stack = c ∷ rest }, g)
]

unfoldable pub interpreter_step :
    Interpreter → Globals → Outcome (ContinuationState × Interpreter × Globals)
unfolding step after_step
interpreter_step i g = elim i.continuation_stack [
  | [] ↦ fault empty_stack
  | c ∷ rest ↦ step c g >>= (λ r. after_step i r.0 rest r.1)
]

-- The events of a runner go to the continuation on top.
unfoldable pub handle_read : Interpreter → Bytes → Outcome (Interpreter × ℕ)
unfolding Events.handle_read
handle_read i s = elim i.continuation_stack [
  | [] ↦ fault empty_stack
  | c ∷ rest ↦
      Events.handle_read c s >>= (λ r. ok (record i { continuation_stack = r.0 ∷ rest }, r.1))
]

unfoldable pub handle_eof : Interpreter → Outcome Interpreter
unfolding Events.handle_eof
handle_eof i = elim i.continuation_stack [
  | [] ↦ fault empty_stack
  | c ∷ rest ↦ Events.handle_eof c >>= (λ c'. ok (record i { continuation_stack = c' ∷ rest }))
]

unfoldable pub ready_to_evaluate : Interpreter → Outcome Bool
unfolding Events.ready_to_evaluate
ready_to_evaluate i = elim i.continuation_stack [
  | [] ↦ fault empty_stack
  | c ∷ rest ↦ Events.ready_to_evaluate c
]

unfoldable pub get_write_buffer : Interpreter → Outcome Bytes
unfolding Events.get_write_buffer
get_write_buffer i = elim i.continuation_stack [
  | [] ↦ fault empty_stack
  | c ∷ rest ↦ Events.get_write_buffer c
]

unfoldable pub handle_write : Interpreter → ℕ → Outcome (Interpreter × ℕ)
unfolding Events.handle_write
handle_write i n = elim i.continuation_stack [
  | [] ↦ fault empty_stack
  | c ∷ rest ↦
      Events.handle_write c n >>= (λ r. ok (record i { continuation_stack = r.0 ∷ rest }, r.1))
]

unfoldable pub get_result : Interpreter → Outcome OperationResult
get_result i = elim i.continuation_stack [ [] ↦ fault empty_stack | c ∷ rest ↦ ok c.result ]

unfoldable pub get_callback_key : Interpreter → Outcome Bytes
unfolding Events.get_callback_key
get_callback_key i = elim i.continuation_stack [
  | [] ↦ fault empty_stack
  | c ∷ rest ↦ Events.get_callback_key c
]

unfoldable pub get_callback_arguments : Interpreter → Outcome (List Value)
unfolding Events.get_callback_arguments
get_callback_arguments i = elim i.continuation_stack [
  | [] ↦ fault empty_stack
  | c ∷ rest ↦ Events.get_callback_arguments c
]

unfoldable pub set_callback_called : Interpreter → Outcome Interpreter
unfolding Events.set_callback_called
set_callback_called i = elim i.continuation_stack [
  | [] ↦ fault empty_stack
  | c ∷ rest ↦
      Events.set_callback_called c >>= (λ c'. ok (record i { continuation_stack = c' ∷ rest }))
]

unfoldable pub set_callback_return : Interpreter → Value → Outcome Interpreter
unfolding Events.set_callback_return
set_callback_return i v = elim i.continuation_stack [
  | [] ↦ fault empty_stack
  | c ∷ rest ↦
      Events.set_callback_return c v >>= (λ c'. ok (record i { continuation_stack = c' ∷ rest }))
]
