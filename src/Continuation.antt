-- ===== src/Continuation.antt =====
-- continuation.hpp and .cpp: the stack of frames of one evaluation of an operation tree, and its
-- step. The top of a stack is the head of the list.
pub mod Events
pub mod Eval
pub mod Prepare
use building_programming_lan.Prelude.{
  ℕ, ◌≡◌, ◌∙◌, refl, Bool, true, false, Option, none, some, List, [], ◌∷◌, ◌++◌, if◌then◌else◌,
}
use building_programming_lan.Outcome.{Outcome, ok, fault, ◌>>=◌, assertion_failed}
use building_programming_lan.Value.{
  OpTree, optree, OpTreeNode, node, OpTreeNodes, leaf, child, Value, bool, OperationResult, value,
  blocked,
}
use building_programming_lan.Frame.{Frame, new_frame, has_arguments_ready, next_op, push_back}
use building_programming_lan.Frame.Execute.{Globals, execute}

pub data ContinuationState : Type 0 where
  missing_arguments ready blocked_state exited : ContinuationState

pub record Continuation : Type 0 where
  pub stack : List Frame
  pub pad : ℕ
  pub state : ContinuationState
  pub result : OperationResult

-- Continuation's constructor.
unfoldable pub new_continuation : OpTree → ℕ → Continuation
unfolding new_frame
new_continuation (optree root) p = record {
  stack = new_frame root p ∷ [];
  pad = p;
  state = missing_arguments;
  result = value (bool false);
}

-- `map_result_to_state`
unfoldable pub result_to_state : OperationResult → ContinuationState
result_to_state (value v) = ready
result_to_state (blocked r) = blocked_state

-- The rounds of the loop of `prepare` from the moment at which `n` is pushed: a new frame has no
-- values, so that it is its first child that is pushed next.
unfoldable pub descend : OpTreeNode → ℕ → List Frame → Outcome (List Frame)
unfolding new_frame has_arguments_ready
descend (node op leaf) p s =
    if has_arguments_ready (new_frame (node op leaf) p)
    then ok (new_frame (node op leaf) p ∷ s)
    else fault assertion_failed
descend (node op (child n ns)) p s =
    elim (has_arguments_ready (new_frame (node op (child n ns)) p)) [
      | true ↦ ok (new_frame (node op (child n ns)) p ∷ s)
      | false ↦ descend n p (new_frame (node op (child n ns)) p ∷ s)
    ]

unfoldable pub prepare : List Frame → Outcome (List Frame × ContinuationState)
unfolding has_arguments_ready next_op descend
prepare [] = ok ([], exited)
prepare (f ∷ s) =
    if has_arguments_ready f
    then ok (f ∷ s, ready)
    else next_op f >>= (λ n. descend n f.pad (f ∷ s)) >>= (λ s'. ok (s', ready))

-- The end of a step: a value goes to the frame below, and the last frame's value ends the
-- continuation.
unfoldable pub finish_step : Continuation → OperationResult → Frame → List Frame → Continuation
unfolding push_back
finish_step c (blocked r) f s = record c {
  stack = f ∷ s;
  state = blocked_state;
  result = blocked r;
}
finish_step c (value v) f [] = record c { stack = []; state = exited; result = value v }
finish_step c (value v) f (g ∷ s) = record c {
  stack = push_back g v ∷ s;
  state = ready;
  result = value v;
}

unfoldable pub step : Continuation → Globals → Outcome (Continuation × Globals)
unfolding prepare execute finish_step
step c g = prepare c.stack >>= (λ p. elim p.0 [
  | [] ↦ ok (record c { stack = []; state = exited }, g)
  | f ∷ s ↦ execute f g >>= (λ r. ok (finish_step c r.0 r.1 s, r.2))
])
