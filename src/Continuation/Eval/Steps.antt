-- ===== src/Continuation/Eval/Steps.antt =====
-- `step` of continuation.cpp on the trees of operations that neither block nor call.
use building_programming_lan.Prelude.{
  ℕ, suc, ◌+◌, ◌≡◌, ◌∙◌, refl, sym, ap, subst, true, false, List, [], ◌∷◌, ◌++◌, length, Bool-cases,
  inl, inr, elim_true, elim_false,
}
use building_programming_lan.Outcome.{ok, bind_parts, ok-injective, bind_ok}
use building_programming_lan.Value.{
  Operation, optree, OpTreeNode, node, OpTreeNodes, leaf, child, Value, value,
}
use building_programming_lan.Frame.{
  Frame, concept, new_frame, children_count, has_arguments_ready, next_op, push_back,
}
use building_programming_lan.Frame.Execute.{Globals}
use building_programming_lan.Continuation.{Continuation, exited, new_continuation, step}
use building_programming_lan.Continuation.Eval.{
  apply, stops, Takes, run, suc_plus, run_add, frame_with, Rest, on, eval, eval_args, Straight,
  StraightAll,
}
use building_programming_lan.Continuation.Eval.Frames.{
  step_ready, step_descend, ready_full, ready_stopped, not_ready, deliver, finish_deliver,
  new_frame_with, next_child, Rest-push, Rest-all,
}

run_first :
    (k : ℕ) (c c' : Continuation) (g : Globals)
    → step c g ≡ step c' g
    → run (suc k) c g ≡ run (suc k) c' g
unfolding run
run_first k c c' g h = rw h

full_frame :
    (op : Operation) (all : OpTreeNodes) (acc : List Value) (p : ℕ)
    → Takes (concept op) (children_count all)
    → Rest all (length acc) leaf
    → has_arguments_ready (frame_with op all acc p) ≡ true
unfolding has_arguments_ready frame_with children_count
full_frame op all acc p h r = ready_full (concept op) acc (children_count all) h r.0

stopped_frame :
    (op : Operation) (all : OpTreeNodes) (acc : List Value) (p : ℕ)
    → stops (concept op) acc ≡ true
    → has_arguments_ready (frame_with op all acc p) ≡ true
unfolding has_arguments_ready frame_with
stopped_frame op all acc p z = ready_stopped (concept op) acc (children_count all) z

waiting_frame :
    (op : Operation) (all : OpTreeNodes) (acc : List Value) (p : ℕ) (n : OpTreeNode)
    (ns : OpTreeNodes)
    → Takes (concept op) (children_count all)
    → Rest all (length acc) (child n ns)
    → stops (concept op) acc ≡ false
    → has_arguments_ready (frame_with op all acc p) ≡ false
unfolding has_arguments_ready frame_with children_count
waiting_frame op all acc p n ns h r z =
    not_ready (concept op) acc (children_count all) (children_count ns) h r.0 z

apply_at :
    (op : Operation) (p : ℕ) (acc : List Value) (g : Globals) (u : List Value × Globals)
    (t : Value × Globals)
    → (acc, g) ≡ u
    → apply (concept op) op u.0 p u.1 ≡ ok t
    → apply (concept op) op acc p g ≡ ok t
apply_at op p acc g u t e a =
    subst (λ (w : List Value × Globals). apply (concept op) op w.0 p w.1 ≡ ok t) (sym e) a

last_step :
    (op : Operation) (all : OpTreeNodes) (acc : List Value) (p : ℕ) (c : Continuation)
    (s : List Frame) (g : Globals) (t : Value × Globals)
    → has_arguments_ready (frame_with op all acc p) ≡ true
    → apply (concept op) op acc p g ≡ ok t
    → run (suc 0) (on c (frame_with op all acc p ∷ s)) g ≡ ok (deliver c t.0 s, t.1)
unfolding run
last_step op all acc p c s g t r a =
    bind_ok _ (step_ready op all acc p c s g t.1 t.0 r a)
    ∙ ap (λ (d : Continuation). ok (d, t.1)) (finish_deliver c t.0 (frame_with op all acc p) s)

deliver_on :
    (c : Continuation) (v w : Value) (f : Frame) (s : List Frame)
    → deliver (deliver c w (f ∷ s)) v s ≡ deliver c v s
unfolding deliver
deliver_on c v w f [] = refl
deliver_on c v w f (g ∷ s) = refl

push_with :
    (op : Operation) (all : OpTreeNodes) (acc : List Value) (p : ℕ) (v : Value) (c : Continuation)
    (s : List Frame)
    → deliver c v (frame_with op all acc p ∷ s)
      ≡ on (deliver c v (frame_with op all acc p ∷ s)) (frame_with op all (acc ++ v ∷ []) p ∷ s)
unfolding deliver on push_back frame_with
push_with op all acc p v c s = refl

-- The value of a child, and then that of the frame that waits for it.
child_then :
    (op : Operation) (all : OpTreeNodes) (acc : List Value) (p : ℕ) (n : OpTreeNode)
    (c : Continuation) (s : List Frame) (g : Globals) (r t : Value × Globals) (j k : ℕ)
    → has_arguments_ready (frame_with op all acc p) ≡ false
    → next_op (frame_with op all acc p) ≡ ok n
    → run (suc j) (on c (new_frame n p ∷ frame_with op all acc p ∷ s)) g
      ≡ ok (deliver c r.0 (frame_with op all acc p ∷ s), r.1)
    → run
        (suc k)
        (on
          (deliver c r.0 (frame_with op all acc p ∷ s))
          (frame_with op all (acc ++ r.0 ∷ []) p ∷ s))
        r.1
      ≡ ok (deliver (deliver c r.0 (frame_with op all acc p ∷ s)) t.0 s, t.1)
    → run (suc (j + suc k)) (on c (frame_with op all acc p ∷ s)) g ≡ ok (deliver c t.0 s, t.1)
unfolding frame_with
child_then op all acc p n c s g r t j k h e x y =
    run_first (j + suc k) (on c (frame_with op all acc p ∷ s))
      (on c (new_frame n p ∷ frame_with op all acc p ∷ s)) g
      (step_descend (frame_with op all acc p) n c s g h e)
    ∙ ap (λ (i : ℕ). run i (on c (new_frame n p ∷ frame_with op all acc p ∷ s)) g)
        (suc_plus j (suc k))
    ∙ run_add (suc j) (suc k) (on c (new_frame n p ∷ frame_with op all acc p ∷ s))
        (deliver c r.0 (frame_with op all acc p ∷ s)) g r.1 (deliver c t.0 s, t.1) x
        (ap (λ (d : Continuation). run (suc k) d r.1) (push_with op all acc p r.0 c s)
          ∙ y
          ∙ ap (λ (d : Continuation). ok (d, t.1))
              (deliver_on c t.0 r.0 (frame_with op all acc p) s))

mutual
  unfolding Straight eval StraightAll eval_args

  reach :
      (n : OpTreeNode) (p : ℕ) (c : Continuation) (s : List Frame) (g : Globals)
      (t : Value × Globals)
      → Straight n
      → eval n p g ≡ ok t
      → (k : ℕ) × (run (suc k) (on c (new_frame n p ∷ s)) g ≡ ok (deliver c t.0 s, t.1))
  reach (node op ns) p c s g t h e =
      let r = bind_parts (eval_args op ns [] p g) _ e in
      let q = reach_args op ns [] ns p c s g r.0 t h.0 h.1 (Rest-all ns) r.1 r.2 in
      (q.0, ap (λ (f : Frame). run (suc q.0) (on c (f ∷ s)) g) (new_frame_with op ns p h.0) ∙ q.1)

  reach_args :
      (op : Operation) (all : OpTreeNodes) (acc : List Value) (ns : OpTreeNodes) (p : ℕ)
      (c : Continuation) (s : List Frame) (g : Globals) (u : List Value × Globals)
      (t : Value × Globals)
      → Takes (concept op) (children_count all)
      → StraightAll ns
      → Rest all (length acc) ns
      → eval_args op ns acc p g ≡ ok u
      → apply (concept op) op u.0 p u.1 ≡ ok t
      → (k : ℕ) × (run (suc k) (on c (frame_with op all acc p ∷ s)) g ≡ ok (deliver c t.0 s, t.1))
  reach_args op all acc leaf p c s g u t h w r e a = (
    0,
    last_step op all acc p c s g t (full_frame op all acc p h r)
        (apply_at op p acc g u t (ok-injective e) a),
  )
  reach_args op all acc (child n ns) p c s g u t h w r e a =
      elim (Bool-cases (stops (concept op) acc)) [
        | inl z ↦ (
          0,
          last_step op all acc p c s g t (stopped_frame op all acc p z)
              (apply_at op p acc g u t (ok-injective (sym (elim_true _ _ z) ∙ e)) a),
        )
        | inr z ↦
            let q = bind_parts (eval n p g) _ (sym (elim_false _ _ z) ∙ e) in
            let below = deliver c q.0.0 (frame_with op all acc p ∷ s) in
            let x = reach n p c (frame_with op all acc p ∷ s) g q.0 w.0 q.1 in
            let y =
              reach_args op all (acc ++ q.0.0 ∷ []) ns p below s q.0.1 u t h w.1
                (Rest-push all acc q.0.0 n ns r) q.2 a in
            let waits = waiting_frame op all acc p n ns h r z in
            (
              x.0 + suc y.0,
              child_then op all acc p n c s g q.0 t x.0 y.0 waits
                  (next_child op all acc p n ns waits r) x.1 y.1,
            )
      ]

-- A tree of operations that neither block nor call, each with a child for each argument: if its
-- evaluation has the value `v` and leaves `g'`, a continuation on the tree exits after some number of
-- steps with the result `v`, and leaves `g'`.
pub run-eval :
    (n : OpTreeNode) (p : ℕ) (g g' : Globals) (v : Value)
    → Straight n
    → eval n p g ≡ ok (v, g')
    → (k : ℕ) × (c : Continuation) × (run k (new_continuation (optree n) p) g ≡ ok (c, g'))
      × (c.state ≡ exited)
      × (c.result ≡ value v)
unfolding new_continuation deliver on
run-eval n p g g' v h e =
    let r = reach n p (new_continuation (optree n) p) [] g (v, g') h e in
    (suc r.0, deliver (new_continuation (optree n) p) v [], r.1, refl, refl)
