-- ===== src/Continuation/Eval.antt =====
-- The operations that neither block nor call: a recursive evaluation of their trees,
-- which the stack machine of continuation.cpp is compared with.
pub mod Frames
pub mod Steps
use building_programming_lan.Prelude.{
  ℕ, zero, suc, ◌+◌, ◌≡◌, ◌∙◌, refl, sym, ap, subst, Bool, true, false, ◌&&◌, Option, none, some,
  List, [], ◌∷◌, ◌++◌, length, get_last?, if◌then◌else◌, arith, Bool-cases, inl, inr, length-append,
  elim_true, elim_false, if_true, if_false,
}
use building_programming_lan.Outcome.{
  Outcome, ok, fault, ◌>>=◌, bind_parts, ok-injective, bind_ok, assertion_failed,
}
use building_programming_lan.Value.{
  Operation, OpTree, optree, OpTreeNode, node, OpTreeNodes, leaf, child, Value, OperationResult,
  value,
}
use building_programming_lan.Frame.{
  Frame, Concept, interpreted, control, callback, input_output, lexical_pad, dynamic_input, concept,
  new_frame, children_count, child_at, ends_list, has_arguments_ready, arguments_ready, next_op,
  push_back, no_context, Context, initialize_context,
}
use building_programming_lan.Frame.Execute.{
  Globals, execute_value, execute_pad, execute, execute_specific,
}
use building_programming_lan.Continuation.{
  Continuation, ready, exited, new_continuation, descend, prepare, finish_step, step,
}

-- An operation's value on all its arguments.
unfoldable pub apply : Concept → Operation → List Value → ℕ → Globals → Outcome (Value × Globals)
apply (interpreted n) op args p g = execute_value op args >>= (λ v. ok (v, g))
apply dynamic_input op args p g = execute_value op args >>= (λ v. ok (v, g))
apply (lexical_pad n) op args p g =
    execute_pad op args p g.pads >>= (λ r. ok (r.0, record g { pads = r.1 }))
apply _ op args p g = fault assertion_failed

-- Whether the arguments end at an error or an instruction.
unfoldable pub stops : Concept → List Value → Bool
stops dynamic_input acc = ends_list (get_last? acc)
stops _ acc = false

-- The children are evaluated from left to right, after the values `acc`.
unfoldable mutual
  pub eval : OpTreeNode → ℕ → Globals → Outcome (Value × Globals)
  eval (node op ns) p g = eval_args op ns [] p g >>= (λ r. apply (concept op) op r.0 p r.1)

  pub eval_args :
      Operation → OpTreeNodes → List Value → ℕ → Globals → Outcome (List Value × Globals)
  eval_args op leaf acc p g = ok (acc, g)
  eval_args op (child n ns) acc p g = elim (stops (concept op) acc) [
    | true ↦ ok (acc, g)
    | false ↦ eval n p g >>= (λ r. eval_args op ns (acc ++ r.0 ∷ []) p r.1)
  ]

-- The trees in question: each operation has a child for each argument.
abbrev pub Takes : Concept → ℕ → Type 0
Takes (interpreted n) k = n ≡ k
Takes (lexical_pad n) k = n ≡ k
Takes dynamic_input k = Unit {0}
Takes _ k = ⊥

unfoldable mutual
  pub Straight : OpTreeNode → Type 0
  Straight (node op ns) = Takes (concept op) (children_count ns) × StraightAll ns

  pub StraightAll : OpTreeNodes → Type 0
  StraightAll leaf = Unit {0}
  StraightAll (child n ns) = Straight n × StraightAll ns

-- Steps of a continuation.
pub run : ℕ → Continuation → Globals → Outcome (Continuation × Globals)
run zero c g = ok (c, g)
run (suc k) c g = step c g >>= (λ r. run k r.0 r.1)

pub zero_plus : (k : ℕ) → k ≡ 0 + k
zero_plus k = omega arith

pub suc_plus : (j k : ℕ) → suc (j + k) ≡ suc j + k
suc_plus j k = omega arith

pub run_add :
    (j k : ℕ) (c c₁ : Continuation) (g g₁ : Globals) (t : Continuation × Globals)
    → run j c g ≡ ok (c₁, g₁)
    → run k c₁ g₁ ≡ ok t
    → run (j + k) c g ≡ ok t
unfolding run
run_add zero k c c₁ g g₁ t h e =
    subst (λ (j : ℕ). run j c g ≡ ok t) (zero_plus k)
      (subst (λ (u : Continuation × Globals). run k u.0 u.1 ≡ ok t) (sym (ok-injective h)) e)
run_add (suc j) k c c₁ g g₁ t h e =
    let first = bind_parts (step c g) _ h in
    subst (λ (i : ℕ). run i c g ≡ ok t) (suc_plus j k)
      (rw (first.1) (run_add j k first.0.0 c₁ first.0.1 g₁ t first.2 e))

-- The frame of a straight operation with the values `acc`.
pub frame_with : Operation → OpTreeNodes → List Value → ℕ → Frame
frame_with op ns acc p = record {
  operation = op;
  children = ns;
  accumulator = acc;
  context = no_context;
  pad = p;
}

-- `ns` are the children from the `i`-th on.
abbrev pub Rest : OpTreeNodes → ℕ → OpTreeNodes → Type 0
Rest all i ns =
    (children_count all ≡ i + children_count ns) × ((j : ℕ) → child_at all (i + j) ≡ child_at ns j)

pub on : Continuation → List Frame → Continuation
on c s = record c { stack = s }
