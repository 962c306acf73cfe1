-- ===== src/Continuation/Eval/Frames.antt =====
-- executionstackframe.cpp and `prepare` of continuation.cpp on the frames of operations that neither
-- block nor call.
use building_programming_lan.Prelude.{
  ℕ, suc, ◌+◌, ◌≡◌, ◌∙◌, refl, sym, ap, subst, true, false, Option, none, some, List, [], ◌∷◌, ◌++◌,
  length, arith, Bool-cases, inl, inr, length-append, elim_true, elim_false, if_true, if_false,
}
use building_programming_lan.Outcome.{
  Outcome, ok, fault, ◌>>=◌, bind_parts, ok-injective, bind_ok, assertion_failed,
}
use building_programming_lan.Value.{
  Operation, OpTreeNode, node, OpTreeNodes, leaf, child, Value, value,
}
use building_programming_lan.Frame.{
  Frame, Concept, interpreted, control, callback, input_output, lexical_pad, dynamic_input, concept,
  new_frame, children_count, child_at, has_arguments_ready, arguments_ready, next_op, push_back,
  no_context, initialize_context,
}
use building_programming_lan.Frame.Execute.{
  Globals, execute_value, execute_pad, execute, execute_specific,
}
use building_programming_lan.Continuation.{
  Continuation, ready, exited, descend, prepare, finish_step, step,
}
use building_programming_lan.Continuation.Eval.{
  apply, stops, Takes, zero_plus, frame_with, Rest, on,
}

pub apply_execute :
    (k : Concept) (op : Operation) (all : OpTreeNodes) (acc : List Value) (p : ℕ) (g : Globals)
    (t : Value × Globals)
    → apply k op acc p g ≡ ok t
    → execute_specific k no_context (frame_with op all acc p) g
      ≡ ok (value t.0, frame_with op all acc p, t.1)
unfolding apply execute_specific frame_with
apply_execute (interpreted n) op all acc p g t h =
    let r = bind_parts (execute_value op acc) _ h in
    bind_ok _ r.1
    ∙ ap (λ (u : Value × Globals). ok (value u.0, frame_with op all acc p, u.1)) (ok-injective r.2)
apply_execute dynamic_input op all acc p g t h =
    let r = bind_parts (execute_value op acc) _ h in
    bind_ok _ r.1
    ∙ ap (λ (u : Value × Globals). ok (value u.0, frame_with op all acc p, u.1)) (ok-injective r.2)
apply_execute (lexical_pad n) op all acc p g t h =
    let r = bind_parts (execute_pad op acc p g.pads) _ h in
    bind_ok _ r.1
    ∙ ap (λ (u : Value × Globals). ok (value u.0, frame_with op all acc p, u.1)) (ok-injective r.2)
apply_execute (control n) op all acc p g t h = absurd cc
apply_execute (callback n) op all acc p g t h = absurd cc
apply_execute (input_output n) op all acc p g t h = absurd cc

pub straight_execute :
    (op : Operation) (all : OpTreeNodes) (acc : List Value) (p : ℕ) (g g' : Globals) (v : Value)
    → has_arguments_ready (frame_with op all acc p) ≡ true
    → apply (concept op) op acc p g ≡ ok (v, g')
    → execute (frame_with op all acc p) g ≡ ok (value v, frame_with op all acc p, g')
unfolding execute frame_with
straight_execute op all acc p g g' v r h =
    if_true _ _ r ∙ apply_execute (concept op) op all acc p g (v, g') h

pub prepare_ready :
    (f : Frame) (s : List Frame)
    → has_arguments_ready f ≡ true
    → prepare (f ∷ s) ≡ ok (f ∷ s, ready)
unfolding prepare
prepare_ready f s h = if_true _ _ h

pub prepare_next :
    (f : Frame) (n : OpTreeNode) (s : List Frame)
    → has_arguments_ready f ≡ false
    → next_op f ≡ ok n
    → prepare (f ∷ s) ≡ (descend n f.pad (f ∷ s) >>= (λ s'. ok (s', ready)))
unfolding prepare
prepare_next f n s h e =
    if_false _ _ h
    ∙ ap
        (λ (m : Outcome OpTreeNode).
          m >>= (λ n'. descend n' f.pad (f ∷ s)) >>= (λ s'. ok (s', ready)))
        e

pub prepare_new :
    (n : OpTreeNode) (p : ℕ) (s : List Frame)
    → prepare (new_frame n p ∷ s) ≡ (descend n p s >>= (λ s'. ok (s', ready)))
unfolding prepare descend next_op child_at new_frame
prepare_new (node op leaf) p s =
    elim (Bool-cases (has_arguments_ready (new_frame (node op leaf) p))) [
      | inl e ↦
          if_true _ _ e
          ∙ sym (ap (λ (m : Outcome (List Frame)). m >>= (λ s'. ok (s', ready))) (if_true _ _ e))
      | inr e ↦
          if_false _ _ e
          ∙ ap
              (λ (m : Outcome OpTreeNode).
                m
                >>= (λ n. descend n p (new_frame (node op leaf) p ∷ s))
                >>= (λ s'. ok (s', ready)))
              (if_false _ _ e)
          ∙ sym (ap (λ (m : Outcome (List Frame)). m >>= (λ s'. ok (s', ready))) (if_false _ _ e))
    ]
prepare_new (node op (child n ns)) p s =
    elim (Bool-cases (has_arguments_ready (new_frame (node op (child n ns)) p))) [
      | inl e ↦
          if_true _ _ e
          ∙ sym (ap (λ (m : Outcome (List Frame)). m >>= (λ s'. ok (s', ready))) (elim_true _ _ e))
      | inr e ↦
          prepare_next (new_frame (node op (child n ns)) p) n s e (if_false _ _ e)
          ∙ sym (ap (λ (m : Outcome (List Frame)). m >>= (λ s'. ok (s', ready))) (elim_false _ _ e))
    ]

pub finish_on :
    (c : Continuation) (s' : List Frame) (v : Value) (f : Frame) (s : List Frame)
    → finish_step (on c s') (value v) f s ≡ finish_step c (value v) f s
unfolding finish_step on
finish_on c s' v f [] = refl
finish_on c s' v f (g ∷ s) = refl

-- A frame that has its arguments is executed.
pub step_ready :
    (op : Operation) (all : OpTreeNodes) (acc : List Value) (p : ℕ) (c : Continuation)
    (s : List Frame) (g g' : Globals) (v : Value)
    → has_arguments_ready (frame_with op all acc p) ≡ true
    → apply (concept op) op acc p g ≡ ok (v, g')
    → step (on c (frame_with op all acc p ∷ s)) g
      ≡ ok (finish_step c (value v) (frame_with op all acc p) s, g')
unfolding step on
step_ready op all acc p c s g g' v r h =
    rw (prepare_ready (frame_with op all acc p) s r, straight_execute op all acc p g g' v r h)
      (ap (λ (u : Continuation). ok (u, g'))
        (finish_on c (frame_with op all acc p ∷ s) v (frame_with op all acc p) s))

-- A frame that lacks arguments makes the same step as with its next child pushed.
pub step_descend :
    (f : Frame) (n : OpTreeNode) (c : Continuation) (s : List Frame) (g : Globals)
    → has_arguments_ready f ≡ false
    → next_op f ≡ ok n
    → step (on c (f ∷ s)) g ≡ step (on c (new_frame n f.pad ∷ f ∷ s)) g
unfolding step on
step_descend f n c s g h e = rw (prepare_next f n s h e, prepare_new n f.pad (f ∷ s))

pub ready_full :
    (k : Concept) (acc : List Value) (m : ℕ)
    → Takes k m
    → m ≡ length acc + 0
    → arguments_ready k acc m ≡ true
unfolding arguments_ready
ready_full (interpreted n) acc m t e = ground arith
ready_full (lexical_pad n) acc m t e = ground arith
ready_full dynamic_input acc m t e = ground arith
ready_full (control n) acc m t e = absurd t
ready_full (callback n) acc m t e = absurd t
ready_full (input_output n) acc m t e = absurd t

pub ready_stopped :
    (k : Concept) (acc : List Value) (m : ℕ) → stops k acc ≡ true → arguments_ready k acc m ≡ true
unfolding arguments_ready stops
ready_stopped dynamic_input acc m e = ground arith
ready_stopped (interpreted n) acc m e = absurd cc
ready_stopped (lexical_pad n) acc m e = absurd cc
ready_stopped (control n) acc m e = absurd cc
ready_stopped (callback n) acc m e = absurd cc
ready_stopped (input_output n) acc m e = absurd cc

pub not_ready :
    (k : Concept) (acc : List Value) (m j : ℕ)
    → Takes k m
    → m ≡ length acc + suc j
    → stops k acc ≡ false
    → arguments_ready k acc m ≡ false
unfolding arguments_ready stops
not_ready (interpreted n) acc m j t e h = ground arith
not_ready (lexical_pad n) acc m j t e h = ground arith
not_ready dynamic_input acc m j t e h = ground arith
not_ready (control n) acc m j t e h = absurd t
not_ready (callback n) acc m j t e h = absurd t
not_ready (input_output n) acc m j t e h = absurd t

pub keeps_nothing : (k : Concept) (m : ℕ) → Takes k m → initialize_context k ≡ no_context
unfolding initialize_context
keeps_nothing (interpreted n) m t = refl
keeps_nothing (lexical_pad n) m t = refl
keeps_nothing dynamic_input m t = refl
keeps_nothing (control n) m t = absurd t
keeps_nothing (callback n) m t = absurd t
keeps_nothing (input_output n) m t = absurd t

-- The continuation `c` once the frame above `s` has the value `v`.
unfoldable pub deliver : Continuation → Value → List Frame → Continuation
deliver c v [] = record c { stack = []; state = exited; result = value v }
deliver c v (g ∷ s) = record c { stack = push_back g v ∷ s; state = ready; result = value v }

pub finish_deliver :
    (c : Continuation) (v : Value) (f : Frame) (s : List Frame)
    → finish_step c (value v) f s ≡ deliver c v s
unfolding finish_step deliver
finish_deliver c v f [] = refl
finish_deliver c v f (g ∷ s) = refl

pub new_frame_with :
    (op : Operation) (ns : OpTreeNodes) (p : ℕ)
    → Takes (concept op) (children_count ns)
    → new_frame (node op ns) p ≡ frame_with op ns [] p
unfolding new_frame frame_with
new_frame_with op ns p t = rw (keeps_nothing (concept op) (children_count ns) t)

pub plus_zero : (k : ℕ) → k + 0 ≡ k
plus_zero k = omega arith

pub length-push :
    (acc : List Value) (v : Value) (j : ℕ) → length acc + suc j ≡ length (acc ++ v ∷ []) + j
length-push acc v j = omega (arith, length-append acc (v ∷ []))

pub next_child :
    (op : Operation) (all : OpTreeNodes) (acc : List Value) (p : ℕ) (n : OpTreeNode)
    (ns : OpTreeNodes)
    → has_arguments_ready (frame_with op all acc p) ≡ false
    → Rest all (length acc) (child n ns)
    → next_op (frame_with op all acc p) ≡ ok n
unfolding next_op frame_with child_at
next_child op all acc p n ns h r =
    if_false _ _ h
    ∙ ap (λ (o : Option OpTreeNode). elim o [ none ↦ fault assertion_failed | some n' ↦ ok n' ])
        (subst (λ (i : ℕ). child_at all i ≡ some n) (plus_zero (length acc)) (r.1 0))

pub Rest-push :
    (all : OpTreeNodes) (acc : List Value) (v : Value) (n : OpTreeNode) (ns : OpTreeNodes)
    → Rest all (length acc) (child n ns)
    → Rest all (length (acc ++ v ∷ [])) ns
unfolding child_at children_count
Rest-push all acc v n ns r = (
  r.0 ∙ length-push acc v (children_count ns),
  λ j. subst (λ (i : ℕ). child_at all i ≡ child_at ns j) (length-push acc v j) (r.1 (suc j)),
)

pub Rest-all : (ns : OpTreeNodes) → Rest ns (length {A = Value} []) ns
Rest-all ns = (zero_plus (children_count ns), λ j. ap (child_at ns) (sym (zero_plus j)))
