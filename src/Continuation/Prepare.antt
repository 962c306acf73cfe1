-- ===== src/Continuation/Prepare.antt =====
-- `prepare` of continuation.cpp on the trees whose operations have enough children: its loop ends at
-- an operation that can be executed, and no assertion fails on the way.
use building_programming_lan.Prelude.{
  ℕ, ◌≤◌, ◌≡◌, ◌∙◌, refl, true, List, [], ◌∷◌, Bool-cases, inl, inr, if_true, elim_true, elim_false,
  arith,
}
use building_programming_lan.Outcome.{Outcome, ok, bind_ok}
use building_programming_lan.Value.{OpTreeNode, node, OpTreeNodes, leaf, child}
use building_programming_lan.Frame.{
  Frame, Concept, interpreted, control, callback, input_output, lexical_pad, dynamic_input, concept,
  children_count, new_frame, has_arguments_ready, arguments_ready,
}
use building_programming_lan.Continuation.{ContinuationState, ready, descend, prepare}
use building_programming_lan.Continuation.Eval.Frames.{prepare_new}

-- An operation of this concept can take its arguments from `k` children.
abbrev pub Enough : Concept → ℕ → Type 0
Enough (interpreted n) k = n ≤ k
Enough (control n) k = n ≤ k
Enough (callback n) k = n ≤ k
Enough (input_output n) k = n ≤ k
Enough (lexical_pad n) k = n ≤ k
Enough dynamic_input k = Unit {0}

unfoldable mutual
  pub Complete : OpTreeNode → Type 0
  Complete (node op ns) = Enough (concept op) (children_count ns) × CompleteAll ns

  pub CompleteAll : OpTreeNodes → Type 0
  CompleteAll leaf = Unit {0}
  CompleteAll (child n ns) = Complete n × CompleteAll ns

ready_leaf : (k : Concept) → Enough k 0 → arguments_ready k [] 0 ≡ true
unfolding arguments_ready
ready_leaf (interpreted n) e = ground arith
ready_leaf (control n) e = ground arith
ready_leaf (callback n) e = ground arith
ready_leaf (input_output n) e = ground arith
ready_leaf (lexical_pad n) e = ground arith
ready_leaf dynamic_input e = refl

-- A stack whose top can be executed.
abbrev Executable : List Frame → Type 0
Executable [] = ⊥
Executable (f ∷ s) = has_arguments_ready f ≡ true

descend-Executable :
    (n : OpTreeNode) (p : ℕ) (s : List Frame)
    → Complete n
    → (s' : List Frame) × (descend n p s ≡ ok s') × Executable s'
unfolding descend Complete CompleteAll new_frame has_arguments_ready children_count
descend-Executable (node op leaf) p s c = (
  new_frame (node op leaf) p ∷ s,
  if_true _ _ (ready_leaf (concept op) c.0),
  ready_leaf (concept op) c.0,
)
descend-Executable (node op (child n ns)) p s c =
    elim (Bool-cases (has_arguments_ready (new_frame (node op (child n ns)) p))) [
      | inl e ↦ (new_frame (node op (child n ns)) p ∷ s, elim_true _ _ e, e)
      | inr e ↦
          let r = descend-Executable n p (new_frame (node op (child n ns)) p ∷ s) c.1.0 in
          (r.0, elim_false _ _ e ∙ r.1, r.2)
    ]

prepared :
    (m : Outcome (List Frame × ContinuationState)) (s' : List Frame)
    → Executable s'
    → m ≡ ok (s', ready)
    → (f : Frame) × (below : List Frame) × (m ≡ ok (f ∷ below, ready))
      × (has_arguments_ready f ≡ true)
prepared m [] x e = absurd x
prepared m (f ∷ below) x e = (f, below, e, x)

-- In a tree whose operations all have at least as many children as they take arguments, preparing
-- the stack with a new frame of the tree on top ends with a stack whose top has its arguments, and no
-- assertion fails.
pub prepare-Complete :
    (n : OpTreeNode) (p : ℕ) (s : List Frame)
    → Complete n
    → (f : Frame) × (below : List Frame) × (prepare (new_frame n p ∷ s) ≡ ok (f ∷ below, ready))
      × (has_arguments_ready f ≡ true)
prepare-Complete n p s c =
    let r = descend-Executable n p s c in
    prepared (prepare (new_frame n p ∷ s)) r.0 r.2 (prepare_new n p s ∙ bind_ok _ r.1)
