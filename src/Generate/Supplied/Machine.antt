-- ===== src/Generate/Supplied/Machine.antt =====
-- generate.cpp, from the transitions to the client and the server: the callbacks of the state machine
-- have the children of their operations too.
use building_programming_lan.Prelude.{
  ◌≡◌, subst, ◌⊎◌, inl, inr, Bool, true, false, Option, none, some, List, [], ◌∷◌, if◌then◌else◌,
  arith,
}
use building_programming_lan.Bytes.{Bytes, eq_bytes}
use building_programming_lan.Outcome.{Outcome, ok}
use building_programming_lan.Value.{
  Condition, OpTreeNode, node, OpTreeNodes, leaf, child, OpTree, TransitionMap,
}
use building_programming_lan.Frame.{concept, children_count}
use building_programming_lan.Continuation.Prepare.{Complete, CompleteAll}
use building_programming_lan.Control.Machine.{closed_name}
use building_programming_lan.Sema.{AbstractTransition, Transition, State, Agent, Protocol}
use building_programming_lan.Generate.{
  TransitionType, read, write, extract_type, extract_argument_names,
}
use building_programming_lan.Generate.Visit.{actions_to_optreenodes}
use building_programming_lan.Generate.States.{
  transition_tree, generate_transition_optree, TransitionInfo, generate_transition_info,
  transition_type, abstract_transition, visit_transition, conditions_of, read_callback,
  generate_read_state_callback, agree, add_transition, construct_transitions, unary_state_callback,
  open_state_callback, state_callback, construct_states, construct_state_map, machine, client,
  server,
}
use building_programming_lan.Generate.Supplied.{
  Supplied, SuppliedAll, SuppliedIn, SuppliedTree, SuppliedStates, SuppliedTransitions, Found,
  Found-if, Found-bind, Found-then,
}
use building_programming_lan.Generate.Supplied.Visit.{actions-Supplied}

transition_tree-Supplied :
    (ops : OpTreeNodes) → SuppliedAll ops → SuppliedTree (transition_tree ops)
unfolding Supplied SuppliedAll SuppliedIn SuppliedTree concept children_count
transition_tree-Supplied ops h = ground arith

optree-Supplied :
    (t : TransitionType) (tr : AbstractTransition)
    → Found SuppliedTree (generate_transition_optree t tr)
unfolding generate_transition_optree
optree-Supplied t tr =
    Found-bind SuppliedTree SuppliedAll
      (actions_to_optreenodes t (extract_type tr.data_fields) tr.actions) _
      (actions-Supplied t (extract_type tr.data_fields) tr.actions) transition_tree-Supplied

info-Supplied :
    (t : TransitionType) (tr : AbstractTransition) (target : Bytes)
    → Found (λ i. SuppliedTree i.optree) (generate_transition_info t tr target)
unfolding generate_transition_info
info-Supplied t tr target =
    Found-bind (λ (i : TransitionInfo). SuppliedTree i.optree) SuppliedTree
      (generate_transition_optree t tr) _ (optree-Supplied t tr)
      λ tree h.
        Found-then (λ (i : TransitionInfo). SuppliedTree i.optree)
          (ok (extract_argument_names tr.data_fields)) _ λ names. h

visit-Supplied :
    (t : Transition) (target : Bytes)
    → Found (λ r. SuppliedTree r.1.optree) (visit_transition t target)
unfolding visit_transition
visit-Supplied t target =
    Found-bind (λ (r : TransitionType × TransitionInfo). SuppliedTree r.1.optree)
      (λ (i : TransitionInfo). SuppliedTree i.optree)
      (generate_transition_info (transition_type t) (abstract_transition t) target) _
      (info-Supplied (transition_type t) (abstract_transition t) target) λ i h. h

transitions-Supplied :
    (so_far : Option TransitionType) (ts : List (Bytes × Transition × Bytes))
    → Found (λ r. SuppliedTransitions r.0) (construct_transitions so_far ts)
unfolding construct_transitions SuppliedTransitions add_transition
transitions-Supplied so_far [] = tt
transitions-Supplied so_far ((name, t, target) ∷ rest) =
    Found-bind (λ (r : TransitionMap × Option TransitionType). SuppliedTransitions r.0)
      (λ (r : TransitionType × TransitionInfo). SuppliedTree r.1.optree) (visit_transition t target)
      _ (visit-Supplied t target)
      λ found h.
        Found-if (λ (r : TransitionMap × Option TransitionType). SuppliedTransitions r.0)
          (agree so_far found.0) _ _
          (Found-bind (λ (r : TransitionMap × Option TransitionType). SuppliedTransitions r.0)
            (λ (r : TransitionMap × Option TransitionType). SuppliedTransitions r.0)
            (construct_transitions (some found.0) rest) _ (transitions-Supplied (some found.0) rest)
            λ result k. (h, k))
          tt

read_callback-Supplied :
    (cs : Option (List (Condition × Bytes))) → Found SuppliedTree (ok (read_callback cs))
unfolding read_callback Supplied SuppliedAll SuppliedIn SuppliedTree concept children_count
read_callback-Supplied none = tt
read_callback-Supplied (some []) = tt
read_callback-Supplied (some (c ∷ cs)) = ground arith

unary-Supplied : (name : Bytes) → SuppliedTree (unary_state_callback name)
unfolding unary_state_callback Supplied SuppliedAll SuppliedIn SuppliedTree concept children_count
unary-Supplied name = ground arith

open-Supplied :
    (name : Bytes) (s : State) (t : Option TransitionType)
    → Found SuppliedTree (ok (open_state_callback name s t))
unfolding open_state_callback generate_read_state_callback
open-Supplied name s (some write) = unary-Supplied name
open-Supplied name s (some read) = read_callback-Supplied (conditions_of s.transitions)
open-Supplied name s none = read_callback-Supplied (conditions_of s.transitions)

tree_if :
    (b : Bool) (x y : Option OpTree)
    → Found SuppliedTree (ok x)
    → Found SuppliedTree (ok y)
    → Found SuppliedTree (ok (if b then x else y))
tree_if true x y h k = h
tree_if false x y h k = k

states-Supplied : (ss : List (Bytes × State)) → Found SuppliedStates (construct_states ss)
unfolding construct_states SuppliedStates state_callback
states-Supplied [] = tt
states-Supplied ((name, s) ∷ rest) =
    Found-bind SuppliedStates
      (λ (r : TransitionMap × Option TransitionType). SuppliedTransitions r.0)
      (construct_transitions none s.transitions) _ (transitions-Supplied none s.transitions)
      λ r h.
        Found-bind SuppliedStates SuppliedTree (ok (state_callback name s r.1)) _
          (tree_if (eq_bytes name closed_name) _ _ (unary-Supplied name) (open-Supplied name s r.1))
          λ callback k.
            Found-bind SuppliedStates SuppliedStates (construct_states rest) _
              (states-Supplied rest) λ states l. (k, h, l)

state_map-Supplied : (ss : List (Bytes × State)) → Found SuppliedStates (construct_state_map ss)
unfolding construct_state_map
state_map-Supplied [] = tt
state_map-Supplied (s ∷ ss) = states-Supplied (s ∷ ss)

machine-Supplied : (a : Option Agent) → Found SuppliedTree (machine a)
unfolding machine Supplied SuppliedAll SuppliedIn SuppliedTree concept children_count
machine-Supplied none = tt
machine-Supplied (some a) =
    Found-bind SuppliedTree SuppliedStates (construct_state_map a.states) _
      (state_map-Supplied a.states) λ states h. ground (arith, h)

protocol-Supplied :
    (p : Option Protocol) → Found SuppliedTree (client p) × Found SuppliedTree (server p)
unfolding client server
protocol-Supplied none = (tt, tt)
protocol-Supplied (some p) = (machine-Supplied p.client, machine-Supplied p.server)

Found-ok :
    (o : Outcome (Option OpTree)) (t : OpTree)
    → o ≡ ok (some t)
    → Found SuppliedTree o
    → SuppliedTree t
Found-ok o t e h = subst (Found SuppliedTree) e h

-- Every operation of a generated client or server, in the state callbacks, the transition callbacks
-- and the bodies of the callables as well, has at least as many children as it takes arguments.
pub generated-Supplied :
    (p : Option Protocol) (t : OpTree)
    → (client p ≡ ok (some t)) ⊎ (server p ≡ ok (some t))
    → SuppliedTree t
generated-Supplied p t (inl e) = Found-ok (client p) t e (protocol-Supplied p).0
generated-Supplied p t (inr e) = Found-ok (server p) t e (protocol-Supplied p).1

mutual
  unfolding Supplied SuppliedAll Complete CompleteAll

  pub Supplied-Complete : (n : OpTreeNode) → Supplied n → Complete n
  Supplied-Complete (node op ns) (e, h, i) = (e, SuppliedAll-CompleteAll ns h)

  SuppliedAll-CompleteAll : (ns : OpTreeNodes) → SuppliedAll ns → CompleteAll ns
  SuppliedAll-CompleteAll leaf h = tt
  SuppliedAll-CompleteAll (child n ns) (h, k) =
      (Supplied-Complete n h, SuppliedAll-CompleteAll ns k)
