-- ===== src/Value.antt =====
-- value.hpp, optree.hpp, operation.hpp and the parameters of the operation classes: the operation
-- tree of a program and the values that it computes. A `std::shared_ptr` to an immutable object is
-- the object; an `std::unordered_map` is an association list, searched from the front.
use building_programming_lan.Prelude.{Bool, Option, List, [], ◌∷◌, ◌≡◌, refl, ap}
use building_programming_lan.Prelude.Int.{ℤ}
use building_programming_lan.Bytes.{Bytes}

-- TransitionLookahead::TransitionCondition
pub data Condition : Type 0 where
  eof_condition : Condition
  match_until_terminator : Bytes → Condition
  static_string : Bytes → Condition

-- An operation with its constructor's arguments. `OpTreeNodes` is a `std::vector<OpTreeNode>`, and
-- the two maps are those of StateMachineOperation.
mutual
  pub data Operation : Type 0 where
    add dynamic_list eq function_call generate_list if_op : Operation
    int_to_ascii lesser_equal multiply op_sequence subtract : Operation
    function_call_for_each : Bool → Operation
    int32_literal : ℤ → Operation
    lexical_pad_get lexical_pad_set : Bytes → Operation
    lexical_pad_initialize lexical_pad_initialize_global : Bytes → Operation
    lexical_pad_as_dict dictionary_initialize : Operation
    dictionary_set dictionary_get : Bytes → Operation
    read_int32_native read_int_from_ascii : Operation
    read_octets_until_terminator : Bytes → Option (Bytes × Bytes) → Operation
    read_static_octets terminate_list_if_read_ahead : Bytes → Operation
    transition_lookahead : List (Condition × Bytes) → Operation
    write_int32_native write_octets : Operation
    write_octets_with_escape : Bytes → Bytes → Operation
    write_static_octets : Bytes → Operation
    unary_callback : Bytes → Operation
    static_callable : OpTree → List Bytes → Bool → Operation
    state_machine : StateMap → Operation

  pub data OpTreeNode : Type 0 where
    node : Operation → OpTreeNodes → OpTreeNode

  pub data OpTreeNodes : Type 0 where
    leaf : OpTreeNodes
    child : OpTreeNode → OpTreeNodes → OpTreeNodes

  pub data OpTree : Type 0 where
    optree : OpTreeNode → OpTree

  pub data StateMap : Type 0 where
    no_state : StateMap
    state : Bytes → OpTree → TransitionMap → StateMap → StateMap

  pub data TransitionMap : Type 0 where
    no_transition : TransitionMap
    transition : Bytes → OpTree → List Bytes → Bytes → TransitionMap → TransitionMap

pub data RuntimeError : Type 0 where
  type_error name_error protocol_mismatch_error : RuntimeError

pub data ControlFlowInstruction : Type 0 where
  interrupt_generator : ControlFlowInstruction

mutual
  pub data Value : Type 0 where
    bool : Bool → Value
    int32 : ℤ → Value
    dictionary : Members → Value
    callable : OpTree → List Bytes → Bool → Value
    runtime_error : RuntimeError → Value
    control_flow : ControlFlowInstruction → Value
    list : Values → Value
    octets : Bytes → Value

  pub data Values : Type 0 where
    nil : Values
    cons : Value → Values → Values

  pub data Members : Type 0 where
    empty : Members
    member : Bytes → Value → Members → Members

-- The elements of a DynamicList as a list, and back.
unfoldable pub to_list : Values → List Value
to_list nil = []
to_list (cons v vs) = v ∷ to_list vs

unfoldable pub of_list : List Value → Values
of_list [] = nil
of_list (v ∷ vs) = cons v (of_list vs)

pub to_list-of_list : (vs : List Value) → to_list (of_list vs) ≡ vs
unfolding to_list of_list
to_list-of_list [] = refl
to_list-of_list (v ∷ vs) = ap (◌∷◌ v) (to_list-of_list vs)

pub data ReasonForBlockedOperation : Type 0 where
  waiting_for_callback waiting_callback_data : ReasonForBlockedOperation
  waiting_for_read waiting_for_write : ReasonForBlockedOperation
  waiting_for_callable_invocation waiting_for_callable_result : ReasonForBlockedOperation

pub data OperationResult : Type 0 where
  value : Value → OperationResult
  blocked : ReasonForBlockedOperation → OperationResult
