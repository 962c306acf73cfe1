-- ===== src/Generate/Supplied.antt =====
-- generate.cpp with the concepts of executionstackframe.cpp: the generated trees give each operation
-- the children that it takes its arguments from, in the bodies of callables and in the callbacks of
-- a state machine as well.
pub mod Visit
pub mod Machine
use building_programming_lan.Prelude.{
  ℕ, ◌≤◌, ◌≡◌, refl, Bool, true, false, Option, none, some, List, [], ◌∷◌, if◌then◌else◌, arith,
}
use building_programming_lan.Bytes.{Bytes, eq_bytes, codes}
use building_programming_lan.Outcome.{Outcome, ok, fault, ◌>>?◌}
use building_programming_lan.Value.{
  Operation, OpTreeNode, node, OpTreeNodes, leaf, child, OpTree, optree, dictionary_set,
  dictionary_get, int_to_ascii, lexical_pad_get, lexical_pad_set, StateMap, no_state, state,
  TransitionMap, no_transition, transition, static_callable, state_machine,
}
use building_programming_lan.Frame.{concept, children_count}
use building_programming_lan.Continuation.Prepare.{Enough, Complete, CompleteAll}
use building_programming_lan.Syntax.{
  IdentifierReference, identifier, identifier_member, identifier_name, TypeTree, TypeParameterValue,
  type_parameter, boolean_literal, integer_literal, string_literal, type_name, type_parameters,
  find_parameter,
}
use building_programming_lan.Sema.{
  EscapeInfo, Action, action_read_static_octets, action_read_octets_until_terminator,
  action_write_from_identifier, action_write_static_octets, action_loop, Actions, no_action, action,
}
use building_programming_lan.Generate.{
  read, write, TransitionType, GetType, node_0, node_1, node_2, member_type, set_value, last_access,
  tuple_name, recursive_variable_access, write_octets_from_value, read_value_from_octets,
  GenerateValue, create_get_type_wrapper, write_operation, read_operation, element_type_name,
}
use building_programming_lan.Generate.Visit.{
  set_read, visit_read, visit_write, initialize_loop_variable, initialize_element, visit_action,
  actions_to_optreenodes, read_loop, write_loop,
}

-- `Complete` at every depth: in the trees that an operation carries too.
unfoldable mutual
  pub Supplied : OpTreeNode → Type 0
  Supplied (node op ns) = Enough (concept op) (children_count ns) × SuppliedAll ns × SuppliedIn op

  pub SuppliedAll : OpTreeNodes → Type 0
  SuppliedAll leaf = Unit {0}
  SuppliedAll (child n ns) = Supplied n × SuppliedAll ns

  pub SuppliedIn : Operation → Type 0
  SuppliedIn (static_callable t names same) = SuppliedTree t
  SuppliedIn (state_machine states) = SuppliedStates states
  SuppliedIn _ = Unit {0}

  pub SuppliedTree : OpTree → Type 0
  SuppliedTree (optree n) = Supplied n

  pub SuppliedStates : StateMap → Type 0
  SuppliedStates no_state = Unit {0}
  SuppliedStates (state name t ts rest) =
      SuppliedTree t × SuppliedTransitions ts × SuppliedStates rest

  pub SuppliedTransitions : TransitionMap → Type 0
  SuppliedTransitions no_transition = Unit {0}
  SuppliedTransitions (transition name t names target rest) =
      SuppliedTree t × SuppliedTransitions rest

-- A value that is found has a property.
abbrev pub Found {ℓ} : {A : Type ℓ} → (A → Type 0) → Outcome (Option A) → Type 0
Found P (ok (some x)) = P x
Found P (ok none) = Unit {0}
Found P (fault why) = Unit {0}

module _ {ℓ} {A : Type ℓ} where
  Found-any : (o : Outcome (Option A)) → Found (λ _. Unit {0}) o
  Found-any (ok (some x)) = tt
  Found-any (ok none) = tt
  Found-any (fault why) = tt

  pub Found-if :
      (P : A → Type 0) (b : Bool) (x y : Outcome (Option A))
      → Found P x
      → Found P y
      → Found P (if b then x else y)
  Found-if P true x y hx hy = hx
  Found-if P false x y hx hy = hy

  pub Found-bind {κ} :
      {B : Type κ} (P : B → Type 0) (Q : A → Type 0) (first : Outcome (Option A))
      (next : A → Outcome (Option B))
      → Found Q first
      → ((x : A) → Q x → Found P (next x))
      → Found P (first >>? next)
  Found-bind P Q (fault why) next h n = tt
  Found-bind P Q (ok none) next h n = tt
  Found-bind P Q (ok (some x)) next h n = n x h

  -- After any result.
  pub Found-then {κ} :
      {B : Type κ} (P : B → Type 0) (first : Outcome (Option A)) (next : A → Outcome (Option B))
      → ((x : A) → Found P (next x))
      → Found P (first >>? next)
  Found-then P first next n = Found-bind P (λ _. Unit {0}) first next (Found-any first) (λ x _. n x)

pub Found-option : {A : Type 0} (o : Option A) → Found (λ x. o ≡ some x) (ok o)
Found-option none = tt
Found-option (some x) = refl

pub Supplied-0 : (op : Operation) → Enough (concept op) 0 → SuppliedIn op → Supplied (node_0 op)
unfolding Supplied SuppliedAll children_count
Supplied-0 op e i = (e, tt, i)

pub Supplied-1 :
    (op : Operation) (a : OpTreeNode)
    → Enough (concept op) 1
    → SuppliedIn op
    → Supplied a
    → Supplied (node_1 op a)
unfolding Supplied SuppliedAll children_count
Supplied-1 op a e i h = (e, (h, tt), i)

pub Supplied-2 :
    (op : Operation) (a b : OpTreeNode)
    → Enough (concept op) 2
    → SuppliedIn op
    → Supplied a
    → Supplied b
    → Supplied (node_2 op a b)
unfolding Supplied SuppliedAll children_count
Supplied-2 op a b e i h k = (e, (h, (k, tt)), i)
