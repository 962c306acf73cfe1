-- ===== src/Frame/Execute.antt =====
-- executionstackframe.cpp, `execute`: the operation of a frame on its arguments, and what it may
-- change: its own context, the lexical pads, and the thread's `errno`.
use building_programming_lan.Prelude.{ℕ, Bool, true, false, none, some, List, ◌∷◌, if◌then◌else◌}
use building_programming_lan.Outcome.{
  Outcome, ok, fault, ◌>>=◌, out_of_range, assertion_failed, bad_variant_access,
}
use building_programming_lan.Value.{
  Operation, Value, int32, callable, OperationResult, value, blocked, waiting_for_callback,
  waiting_callback_data, add, dynamic_list, eq, function_call, generate_list, if_op, int_to_ascii,
  lesser_equal, multiply, op_sequence, subtract, function_call_for_each, int32_literal,
  lexical_pad_get, lexical_pad_set, lexical_pad_initialize, lexical_pad_initialize_global,
  lexical_pad_as_dict, dictionary_initialize, dictionary_set, dictionary_get, read_int32_native,
  read_int_from_ascii, read_octets_until_terminator, read_static_octets,
  terminate_list_if_read_ahead, transition_lookahead, write_int32_native, write_octets,
  write_octets_with_escape, write_static_octets, static_callable, state_machine,
}
use building_programming_lan.Compute
use building_programming_lan.Pad
use building_programming_lan.Pad.{PadStore}
use building_programming_lan.Io.Context.{IoContext}
use building_programming_lan.Io.ReadInt32
use building_programming_lan.Io.ReadAscii
use building_programming_lan.Io.ReadUntil
use building_programming_lan.Io.ReadStatic
use building_programming_lan.Io.TerminateList
use building_programming_lan.Io.Lookahead
use building_programming_lan.Io.Write
use building_programming_lan.Control.{ControlContext, Step}
use building_programming_lan.Control.Call
use building_programming_lan.Control.ForEach
use building_programming_lan.Control.Generate
use building_programming_lan.Control.Machine
use building_programming_lan.Frame.{
  Frame, CallbackContext, Context, callback_context, control_context, io_context, Concept,
  interpreted, control, callback, input_output, lexical_pad, dynamic_input, concept,
  has_arguments_ready,
}

-- What the frames of an interpreter share.
pub record Globals : Type 0 where
  pub pads : PadStore
  pub erange : Bool

-- The operations that compute a value, fixed arguments and dynamic ones.
unfoldable pub execute_value : Operation → List Value → Outcome Value
unfolding Compute.add Compute.subtract Compute.multiply Compute.eq Compute.lesser_equal
    Compute.int_to_ascii Compute.dictionary_get Compute.dictionary_set Compute.dictionary_initialize
    Compute.dynamic_list Compute.op_sequence
execute_value add (a ∷ b ∷ _) = Compute.add a b
execute_value subtract (a ∷ b ∷ _) = Compute.subtract a b
execute_value multiply (a ∷ b ∷ _) = Compute.multiply a b
execute_value eq (a ∷ b ∷ _) = Compute.eq a b
execute_value lesser_equal (a ∷ b ∷ _) = Compute.lesser_equal a b
execute_value (int32_literal v) _ = ok (int32 v)
execute_value int_to_ascii (a ∷ _) = ok (Compute.int_to_ascii a)
execute_value (static_callable t names h) _ = ok (callable t names h)
execute_value dictionary_initialize _ = ok Compute.dictionary_initialize
execute_value (dictionary_set key) (a ∷ b ∷ _) = ok (Compute.dictionary_set key a b)
execute_value (dictionary_get key) (a ∷ _) = ok (Compute.dictionary_get key a)
execute_value dynamic_list args = ok (Compute.dynamic_list args)
execute_value op_sequence args = ok (Compute.op_sequence args)
execute_value _ _ = fault out_of_range

-- The operations on the lexical pad at address `p`.
unfoldable pub execute_pad : Operation → List Value → ℕ → PadStore → Outcome (Value × PadStore)
unfolding Pad.get Pad.set Pad.initialize Pad.initialize_global Pad.as_dict
execute_pad (lexical_pad_get name) _ p s = ok (Pad.get s p name, s)
execute_pad (lexical_pad_set name) (v ∷ _) p s = ok ((Pad.set s p name v).1, (Pad.set s p name v).0)
execute_pad (lexical_pad_initialize name) (v ∷ _) p s = ok (v, Pad.initialize s p name v)
execute_pad (lexical_pad_initialize_global name) (v ∷ _) p s =
    ok (v, Pad.initialize_global s p name v)
execute_pad lexical_pad_as_dict _ p s = ok (Pad.as_dict s p, s)
execute_pad _ _ p s = fault out_of_range

unfoldable pub execute_control : Operation → List Value → ControlContext → Step
unfolding Call.function_call Call.if_operation ForEach.execute Generate.execute Machine.execute
execute_control function_call (f ∷ args ∷ _) ctx = Call.function_call ctx f args
execute_control (function_call_for_each single) (f ∷ args ∷ _) ctx = ForEach.execute ctx f args
execute_control generate_list (f ∷ _) ctx = Generate.execute ctx f
execute_control if_op (c ∷ t ∷ e ∷ _) ctx = Call.if_operation ctx c t e
execute_control (state_machine states) _ ctx = Machine.execute states ctx
execute_control _ _ ctx = fault out_of_range

-- The input and output operations, with `errno`.
unfoldable pub execute_io :
    Operation → List Value → IoContext → Bool → Outcome (OperationResult × IoContext × Bool)
unfolding ReadInt32.execute ReadAscii.execute ReadUntil.execute ReadStatic.execute
    TerminateList.execute Lookahead.execute Write.write_int32_native Write.write_octets
    Write.write_octets_with_escape Write.write_static_octets
execute_io read_int32_native _ ctx e = ok (ReadInt32.execute ctx, ctx, e)
execute_io read_int_from_ascii _ ctx e =
    ok ((ReadAscii.execute e ctx).0, ctx, (ReadAscii.execute e ctx).1)
execute_io (read_octets_until_terminator t escape) _ ctx e = ok (ReadUntil.execute ctx, ctx, e)
execute_io (read_static_octets c) _ ctx e = ok (ReadStatic.execute c ctx, ctx, e)
execute_io (terminate_list_if_read_ahead t) _ ctx e = ok (TerminateList.execute t ctx, ctx, e)
execute_io (transition_lookahead cs) _ ctx e = ok (Lookahead.execute cs ctx, ctx, e)
execute_io write_int32_native (v ∷ _) ctx e =
    Write.write_int32_native v ctx >>= (λ r. ok (r.0, r.1, e))
execute_io write_octets (v ∷ _) ctx e =
    ok ((Write.write_octets v ctx).0, (Write.write_octets v ctx).1, e)
execute_io (write_octets_with_escape c s) (v ∷ _) ctx e =
    Write.write_octets_with_escape c s v ctx >>= (λ r. ok (r.0, r.1, e))
execute_io (write_static_octets c) _ ctx e =
    ok ((Write.write_static_octets c ctx).0, (Write.write_static_octets c ctx).1, e)
execute_io _ _ ctx e = fault out_of_range

-- UnaryCallback::operator()
unfoldable pub execute_callback : CallbackContext → OperationResult
execute_callback ctx = elim ctx.callback_called [
  | false ↦ blocked waiting_for_callback
  | true ↦ elim ctx.value [ none ↦ blocked waiting_callback_data | some v ↦ value v ]
]

-- The overloads of `execute_specific_operation`; `std::get` on the context throws where it is another
-- alternative.
unfoldable pub execute_specific :
    Concept → Context → Frame → Globals → Outcome (OperationResult × Frame × Globals)
unfolding execute_value execute_pad execute_control execute_io execute_callback
execute_specific (interpreted n) ctx f g =
    execute_value f.operation f.accumulator >>= (λ v. ok (value v, f, g))
execute_specific dynamic_input ctx f g =
    execute_value f.operation f.accumulator >>= (λ v. ok (value v, f, g))
execute_specific (lexical_pad n) ctx f g =
    execute_pad f.operation f.accumulator f.pad g.pads
    >>= (λ r. ok (value r.0, f, record g { pads = r.1 }))
execute_specific (callback n) (callback_context c) f g = ok (execute_callback c, f, g)
execute_specific (control n) (control_context c) f g =
    execute_control f.operation f.accumulator c
    >>= (λ s. ok (s.1, record f { context = control_context s.0 }, g))
execute_specific (input_output n) (io_context c) f g =
    execute_io f.operation f.accumulator c g.erange
    >>= (λ r. ok (r.0, record f { context = io_context r.1 }, record g { erange = r.2 }))
execute_specific _ _ f g = fault bad_variant_access

unfoldable pub execute : Frame → Globals → Outcome (OperationResult × Frame × Globals)
unfolding has_arguments_ready concept execute_specific
execute f g =
    if has_arguments_ready f
    then execute_specific (concept f.operation) f.context f g
    else fault assertion_failed
