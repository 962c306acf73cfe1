-- ===== src/Frame.antt =====
-- executionstackframe.hpp and .cpp, with operationconcepts.hpp: one operation of the tree, the values
-- of its children so far, and the context of its kind of operation.
pub mod Execute
use building_programming_lan.Prelude.{
  ℕ, zero, suc, Bool, true, false, not, ◌||◌, ◌&&◌, Option, none, some, List, [], ◌∷◌, ◌++◌, length,
  get_last?, if◌then◌else◌, ltb, leb,
}
use building_programming_lan.Outcome.{Outcome, ok, fault, assertion_failed}
use building_programming_lan.Value.{
  Operation, OpTreeNode, node, OpTreeNodes, leaf, child, Value, runtime_error, control_flow, add,
  dynamic_list, eq, function_call, generate_list, if_op, int_to_ascii, lesser_equal, multiply,
  op_sequence, subtract, function_call_for_each, int32_literal, lexical_pad_get, lexical_pad_set,
  lexical_pad_initialize, lexical_pad_initialize_global, lexical_pad_as_dict, dictionary_initialize,
  dictionary_set, dictionary_get, read_int32_native, read_int_from_ascii,
  read_octets_until_terminator, read_static_octets, terminate_list_if_read_ahead,
  transition_lookahead, write_int32_native, write_octets, write_octets_with_escape,
  write_static_octets, unary_callback, static_callable, state_machine,
}
use building_programming_lan.Control.{ControlContext, new_control}
use building_programming_lan.Io.Context.{IoContext, new_io}

-- CallbackOperationContext
pub record CallbackContext : Type 0 where
  pub value : Option Value
  pub callback_called : Bool

-- OperationContextVariant; `false` for an operation that keeps nothing.
pub data Context : Type 0 where
  no_context : Context
  callback_context : CallbackContext → Context
  control_context : ControlContext → Context
  io_context : IoContext → Context

-- The concept that an operation meets, with its number of arguments.
pub data Concept : Type 0 where
  interpreted control callback input_output lexical_pad : ℕ → Concept
  dynamic_input : Concept

unfoldable pub concept : Operation → Concept
concept add = interpreted 2
concept dynamic_list = dynamic_input
concept eq = interpreted 2
concept function_call = control 2
concept (function_call_for_each single) = control 2
concept generate_list = control 1
concept if_op = control 3
concept (int32_literal v) = interpreted 0
concept int_to_ascii = interpreted 1
concept lesser_equal = interpreted 2
concept (lexical_pad_get name) = lexical_pad 0
concept (lexical_pad_initialize name) = lexical_pad 1
concept (lexical_pad_initialize_global name) = lexical_pad 1
concept (lexical_pad_set name) = lexical_pad 1
concept multiply = interpreted 2
concept op_sequence = dynamic_input
concept read_int32_native = input_output 0
concept read_int_from_ascii = input_output 0
concept (read_octets_until_terminator t escape) = input_output 0
concept (read_static_octets c) = input_output 0
concept (static_callable t names h) = interpreted 0
concept subtract = interpreted 2
concept (terminate_list_if_read_ahead t) = input_output 0
concept (unary_callback key) = callback 1
concept write_int32_native = input_output 1
concept write_octets = input_output 1
concept (write_octets_with_escape c s) = input_output 1
concept (write_static_octets c) = input_output 0
concept dictionary_initialize = interpreted 0
concept (dictionary_set key) = interpreted 2
concept (dictionary_get key) = interpreted 1
concept lexical_pad_as_dict = lexical_pad 0
concept (transition_lookahead cs) = input_output 0
concept (state_machine states) = control 0

-- The overloads of `initialize_context`.
unfoldable pub initialize_context : Concept → Context
unfolding new_control
initialize_context (interpreted n) = no_context
initialize_context (control n) = control_context new_control
initialize_context (callback n) =
    callback_context (record { value = none; callback_called = false })
initialize_context (input_output n) = io_context new_io
initialize_context (lexical_pad n) = no_context
initialize_context dynamic_input = no_context

-- `pad` is the address of the lexical pad.
pub record Frame : Type 0 where
  pub operation : Operation
  pub children : OpTreeNodes
  pub accumulator : List Value
  pub context : Context
  pub pad : ℕ

-- ExecutionStackFrame's constructor.
unfoldable pub new_frame : OpTreeNode → ℕ → Frame
unfolding initialize_context concept
new_frame (node op children) p = record {
  operation = op;
  children = children;
  accumulator = [];
  context = initialize_context (concept op);
  pad = p;
}

-- `children.size()` and `children[i]`
unfoldable pub children_count : OpTreeNodes → ℕ
children_count leaf = 0
children_count (child n ns) = suc (children_count ns)

unfoldable pub child_at : OpTreeNodes → ℕ → Option OpTreeNode
child_at leaf i = none
child_at (child n ns) zero = some n
child_at (child n ns) (suc i) = child_at ns i

abbrev pub ends_list : Option Value → Bool
ends_list (some (runtime_error e)) = true
ends_list (some (control_flow c)) = true
ends_list o = false

-- The overloads of `operation_has_arguments_ready`. A dynamic list of arguments also ends at an error
-- or an instruction.
unfoldable pub arguments_ready : Concept → List Value → ℕ → Bool
arguments_ready (interpreted n) acc k = leb n (length acc)
arguments_ready (control n) acc k = leb n (length acc)
arguments_ready (callback n) acc k = leb n (length acc)
arguments_ready (input_output n) acc k = leb n (length acc)
arguments_ready (lexical_pad n) acc k = leb n (length acc)
arguments_ready dynamic_input acc k = ends_list (get_last? acc) || leb k (length acc)

unfoldable pub has_arguments_ready : Frame → Bool
unfolding arguments_ready concept children_count
has_arguments_ready f =
    arguments_ready (concept f.operation) f.accumulator (children_count f.children)

unfoldable pub next_op : Frame → Outcome OpTreeNode
unfolding has_arguments_ready child_at
next_op f =
    if has_arguments_ready f
    then fault assertion_failed
    else elim (child_at f.children (length f.accumulator)) [
      | none ↦ fault assertion_failed
      | some n ↦ ok n
    ]

unfoldable pub push_back : Frame → Value → Frame
push_back f v = record f { accumulator = f.accumulator ++ v ∷ [] }
