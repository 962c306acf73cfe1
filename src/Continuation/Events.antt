-- ===== src/Continuation/Events.antt =====
-- continuation.cpp: the events that reach the operation on top of the stack. An operation of another
-- concept takes no notice of them.
use building_programming_lan.Prelude.{ℕ, Bool, true, Option, some, List, [], ◌∷◌}
use building_programming_lan.Bytes.{Bytes, codes}
use building_programming_lan.Outcome.{Outcome, ok, fault, ◌>>=◌, empty_stack, bad_variant_access}
use building_programming_lan.Value.{
  Operation, Value, runtime_error, type_error, read_int32_native, read_int_from_ascii,
  read_octets_until_terminator, read_static_octets, terminate_list_if_read_ahead,
  transition_lookahead, write_int32_native, write_octets, write_octets_with_escape,
  write_static_octets, unary_callback, function_call_for_each, state_machine, value,
}
use building_programming_lan.Io.Context
use building_programming_lan.Io.Context.{IoContext}
use building_programming_lan.Io.ReadInt32
use building_programming_lan.Io.ReadAscii
use building_programming_lan.Io.ReadUntil
use building_programming_lan.Io.ReadStatic
use building_programming_lan.Io.TerminateList
use building_programming_lan.Io.Lookahead
use building_programming_lan.Io.Write
use building_programming_lan.Control
use building_programming_lan.Control.{ControlContext}
use building_programming_lan.Control.ForEach
use building_programming_lan.Frame.{
  Frame, callback_context, control_context, io_context, control, callback, input_output, concept,
}
use building_programming_lan.Continuation.{Continuation}

-- `handle_read` of the operation: the writing ones consume nothing.
unfoldable pub operation_handle_read : Operation → IoContext → Bytes → Outcome (IoContext × ℕ)
unfolding ReadInt32.handle_read ReadAscii.handle_read ReadUntil.handle_read ReadStatic.handle_read
    TerminateList.handle_read Lookahead.handle_read
operation_handle_read read_int32_native ctx s = ok (ReadInt32.handle_read ctx s)
operation_handle_read read_int_from_ascii ctx s = ok (ReadAscii.handle_read ctx s)
operation_handle_read (read_octets_until_terminator t escape) ctx s =
    ReadUntil.handle_read t escape ctx s
operation_handle_read (read_static_octets c) ctx s = ok (ReadStatic.handle_read c ctx s)
operation_handle_read (terminate_list_if_read_ahead t) ctx s =
    ok (TerminateList.handle_read t ctx s)
operation_handle_read (transition_lookahead cs) ctx s = ok (Lookahead.handle_read ctx s)
operation_handle_read _ ctx s = ok (ctx, 0)

-- `get_write_buffer` of the operation: the reading ones return their whole buffer.
unfoldable pub operation_write_buffer : Operation → IoContext → Outcome Bytes
unfolding Write.get_write_buffer
operation_write_buffer write_int32_native ctx = Write.get_write_buffer ctx
operation_write_buffer write_octets ctx = Write.get_write_buffer ctx
operation_write_buffer (write_octets_with_escape c s) ctx = Write.get_write_buffer ctx
operation_write_buffer (write_static_octets c) ctx = Write.get_write_buffer ctx
operation_write_buffer _ ctx = ok ctx.buffer

unfoldable pub operation_handle_write : Operation → IoContext → ℕ → Outcome (IoContext × ℕ)
unfolding Write.handle_write
operation_handle_write write_int32_native ctx n = Write.handle_write ctx n
operation_handle_write write_octets ctx n = Write.handle_write ctx n
operation_handle_write (write_octets_with_escape c s) ctx n = Write.handle_write ctx n
operation_handle_write (write_static_octets c) ctx n = Write.handle_write ctx n
operation_handle_write _ ctx n = ok (ctx, 0)

unfoldable pub operation_ready : Operation → IoContext → Bool
unfolding ReadInt32.ready_to_evaluate ReadAscii.ready_to_evaluate ReadUntil.ready_to_evaluate
    ReadStatic.ready_to_evaluate TerminateList.ready_to_evaluate Lookahead.ready_to_evaluate
operation_ready read_int32_native ctx = ReadInt32.ready_to_evaluate ctx
operation_ready read_int_from_ascii ctx = ReadAscii.ready_to_evaluate ctx
operation_ready (read_octets_until_terminator t escape) ctx = ReadUntil.ready_to_evaluate ctx
operation_ready (read_static_octets c) ctx = ReadStatic.ready_to_evaluate c ctx
operation_ready (terminate_list_if_read_ahead t) ctx = TerminateList.ready_to_evaluate t ctx
operation_ready (transition_lookahead cs) ctx = Lookahead.ready_to_evaluate cs ctx
operation_ready _ ctx = true

-- `std::get<InputOutputOperationContext>(c->top().get_context())`
unfoldable pub io_of : Frame → Outcome IoContext
io_of f = elim f.context [ io_context ctx ↦ ok ctx | _ ↦ fault bad_variant_access ]

unfoldable pub control_of : Frame → Outcome ControlContext
control_of f = elim f.context [ control_context ctx ↦ ok ctx | _ ↦ fault bad_variant_access ]

-- `stack.top()`, with the frames below it.
unfoldable pub top : Continuation → Outcome (Frame × List Frame)
top c = elim c.stack [ [] ↦ fault empty_stack | f ∷ s ↦ ok (f, s) ]

abbrev put : Continuation → Frame → List Frame → Continuation
put c f s = record c { stack = f ∷ s }

unfoldable pub handle_read : Continuation → Bytes → Outcome (Continuation × ℕ)
unfolding top io_of concept operation_handle_read
handle_read c input = top c >>= (λ t. elim (concept t.0.operation) [
  | input_output n ↦
      io_of t.0
      >>= (λ ctx. operation_handle_read t.0.operation ctx input)
      >>= (λ r. ok (put c (record t.0 { context = io_context r.0 }) t.1, r.1))
  | _ ↦ ok (c, 0)
])

unfoldable pub handle_eof : Continuation → Outcome Continuation
unfolding top io_of concept Context.handle_eof
handle_eof c = top c >>= (λ t. elim (concept t.0.operation) [
  | input_output n ↦
      io_of t.0
      >>= (λ ctx. ok (put c (record t.0 { context = io_context (Context.handle_eof ctx) }) t.1))
  | _ ↦ ok c
])

unfoldable pub get_write_buffer : Continuation → Outcome Bytes
unfolding top io_of concept operation_write_buffer
get_write_buffer c = top c >>= (λ t. elim (concept t.0.operation) [
  | input_output n ↦ io_of t.0 >>= (λ ctx. operation_write_buffer t.0.operation ctx)
  | _ ↦ ok []
])

unfoldable pub handle_write : Continuation → ℕ → Outcome (Continuation × ℕ)
unfolding top io_of concept operation_handle_write
handle_write c n = top c >>= (λ t. elim (concept t.0.operation) [
  | input_output k ↦ io_of t.0 >>= (λ ctx.
      operation_handle_write t.0.operation ctx n
      >>= (λ r. ok (put c (record t.0 { context = io_context r.0 }) t.1, r.1)))
  | _ ↦ ok (c, 0)
])

unfoldable pub ready_to_evaluate : Continuation → Outcome Bool
unfolding top io_of concept operation_ready
ready_to_evaluate c = top c >>= (λ t. elim (concept t.0.operation) [
  | input_output n ↦ io_of t.0 >>= (λ ctx. ok (operation_ready t.0.operation ctx))
  | _ ↦ ok true
])

unfoldable pub get_callable : Continuation → Outcome Value
unfolding top control_of concept Control.get_callable
get_callable c = top c >>= (λ t. elim (concept t.0.operation) [
  | control n ↦ control_of t.0 >>= Control.get_callable
  | _ ↦ ok (runtime_error type_error)
])

-- `get_argument_list` of the operation; `none` is the null pointer.
unfoldable pub operation_argument_list : Operation → ControlContext → Outcome (Option (List Value))
unfolding ForEach.get_argument_list
operation_argument_list (function_call_for_each single) ctx =
    ForEach.get_argument_list single ctx >>= (λ args. ok (some args))
operation_argument_list (state_machine states) ctx = ok ctx.accumulator
operation_argument_list _ ctx = ok ctx.arglist

unfoldable pub get_argument_list : Continuation → Outcome (Option (List Value))
unfolding top control_of concept operation_argument_list
get_argument_list c = top c >>= (λ t. elim (concept t.0.operation) [
  | control n ↦ control_of t.0 >>= operation_argument_list t.0.operation
  | _ ↦ ok (some [])
])

unfoldable pub set_callable_invoked : Continuation → Outcome Continuation
unfolding top control_of concept Control.set_callable_invoked
set_callable_invoked c = top c >>= (λ t. elim (concept t.0.operation) [
  | control n ↦ control_of t.0 >>= (λ ctx.
      ok (put c (record t.0 { context = control_context (Control.set_callable_invoked ctx) }) t.1))
  | _ ↦ ok c
])

-- This one also stores the value as the continuation's result.
unfoldable pub set_callable_return : Continuation → Value → Outcome Continuation
unfolding top control_of concept Control.set_callable_return
set_callable_return c v = top (record c { result = value v }) >>= (λ t.
    elim (concept t.0.operation) [
      | control n ↦ control_of t.0 >>= (λ ctx. ok (
          put (record c { result = value v })
            (record t.0 { context = control_context (Control.set_callable_return ctx v) }) t.1))
      | _ ↦ ok (record c { result = value v })
    ])

-- `std::get<CallbackOperationContext>` behind the callback events.
unfoldable pub get_callback_key : Continuation → Outcome Bytes
unfolding top
get_callback_key c = top c >>= (λ t. elim t.0.operation [
  | unary_callback key ↦ elim t.0.context [
    | callback_context ctx ↦ ok key
    | _ ↦ fault bad_variant_access
  ]
  | _ ↦ ok (codes "N/A")
])

unfoldable pub get_callback_arguments : Continuation → Outcome (List Value)
unfolding top
get_callback_arguments c = top c >>= (λ t. ok t.0.accumulator)

unfoldable pub set_callback_called : Continuation → Outcome Continuation
unfolding top concept
set_callback_called c = top c >>= (λ t. elim (concept t.0.operation) [
  | callback n ↦ elim t.0.context [
    | callback_context ctx ↦ ok (
        put c (record t.0 { context = callback_context (record ctx { callback_called = true }) })
          t.1)
    | _ ↦ fault bad_variant_access
  ]
  | _ ↦ ok c
])

unfoldable pub set_callback_return : Continuation → Value → Outcome Continuation
unfolding top concept
set_callback_return c v = top c >>= (λ t. elim (concept t.0.operation) [
  | callback n ↦ elim t.0.context [
    | callback_context ctx ↦
        ok (put c (record t.0 { context = callback_context (record ctx { value = some v }) }) t.1)
    | _ ↦ fault bad_variant_access
  ]
  | _ ↦ ok c
])
