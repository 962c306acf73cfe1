-- ===== src/Generate/Supplied/Visit.antt =====
-- generate.cpp, down to the actions: each operation of the trees has its children.
use building_programming_lan.Prelude.{Bool, true, false, Option, none, some, if◌then◌else◌, arith}
use building_programming_lan.Bytes.{Bytes, eq_bytes, codes}
use building_programming_lan.Outcome.{ok}
use building_programming_lan.Value.{
  OpTreeNode, OpTreeNodes, dictionary_set, dictionary_get, int_to_ascii, lexical_pad_get,
  lexical_pad_set, read_static_octets, write_static_octets,
}
use building_programming_lan.Frame.{concept, children_count}
use building_programming_lan.Syntax.{
  IdentifierReference, identifier, identifier_member, identifier_name, TypeTree, TypeParameterValue,
  type_parameter, boolean_literal, integer_literal, string_literal, type_name, type_parameters,
  find_parameter,
}
use building_programming_lan.Sema.{
  EscapeInfo, Action, action_read_static_octets, action_read_octets_until_terminator,
  action_write_from_identifier, action_write_static_octets, action_loop, Actions, no_action, action,
}
use building_programming_lan.Generate.{
  read, write, TransitionType, GetType, node_0, node_1, member_type, set_value, last_access,
  tuple_name, recursive_variable_access, write_octets_from_value, read_value_from_octets,
  GenerateValue, create_get_type_wrapper, write_operation, read_operation, element_type_name,
}
use building_programming_lan.Generate.Visit.{
  set_read, visit_read, visit_write, initialize_loop_variable, initialize_element, visit_action,
  actions_to_optreenodes, read_loop, write_loop,
}
use building_programming_lan.Generate.Supplied.{
  Supplied, SuppliedAll, SuppliedIn, SuppliedTree, Found, Found-if, Found-bind, Found-then,
  Supplied-0, Supplied-1, Supplied-2,
}

-- A generator of the value at the end of a path.
Supplies : Option GenerateValue → Type 0
Supplies none = Unit {0}
Supplies (some f) = (t : TypeTree) → Found Supplied (ok (f t))

set_value-Supplied :
    (name : Bytes) (n : OpTreeNode) (t : TypeTree) (v : Option OpTreeNode)
    → Supplied n
    → Found Supplied (ok v)
    → Found (λ a. Supplied a.0) (set_value name n t v)
unfolding set_value concept SuppliedIn
set_value-Supplied name n t none h k = tt
set_value-Supplied name n t (some v) h k = Supplied-2 (dictionary_set name) n v (omega arith) tt h k

last_access-Supplied :
    (name : Bytes) (n : OpTreeNode) (f : Option GenerateValue) (t : TypeTree)
    → Supplied n
    → Supplies f
    → Found (λ a. Supplied a.0) (last_access name n f t)
unfolding last_access concept SuppliedIn Supplies
last_access-Supplied name n none t h k = Supplied-1 (dictionary_get name) n (omega arith) tt h
last_access-Supplied name n (some f) t h k = set_value-Supplied name n t (f t) h (k t)

recursive_variable_access-Supplied :
    (t : TypeTree) (id : IdentifierReference) (n : OpTreeNode) (f : Option GenerateValue)
    → Supplied n
    → Supplies f
    → Found (λ a. Supplied a.0) (recursive_variable_access t id n f)
unfolding recursive_variable_access concept SuppliedIn
recursive_variable_access-Supplied t (identifier name) n f h k =
    Found-then _ (member_type (find_parameter name (type_parameters t))) _
      λ m. last_access-Supplied name n f m h k
recursive_variable_access-Supplied t (identifier_member name rest) n f h k =
    Found-then _ (member_type (find_parameter name (type_parameters t))) _ λ m.
      Found-if (λ a. Supplied a.0) (eq_bytes (type_name m) tuple_name) _ _
        (recursive_variable_access-Supplied m rest (node_1 (dictionary_get name) n) f
          (Supplied-1 (dictionary_get name) n (omega arith) tt h) k)
        tt

optional_if :
    (b : Bool) (x y : Option OpTreeNode)
    → Found Supplied (ok x)
    → Found Supplied (ok y)
    → Found Supplied (ok (if b then x else y))
optional_if true x y hx hy = hx
optional_if false x y hx hy = hy

write_operation-Supplied :
    (e : Option EscapeInfo) (n : OpTreeNode) → Supplied n → Supplied (node_1 (write_operation e) n)
unfolding concept SuppliedIn
write_operation-Supplied none n h = Supplied-1 (write_operation none) n (omega arith) tt h
write_operation-Supplied (some e) n h = Supplied-1 (write_operation (some e)) n (omega arith) tt h

read_operation-Supplied :
    (b : Bytes) (e : Option EscapeInfo) → Supplied (node_0 (read_operation b e))
unfolding concept SuppliedIn
read_operation-Supplied b none = Supplied-0 (read_operation b none) (omega arith) tt
read_operation-Supplied b (some e) = Supplied-0 (read_operation b (some e)) (omega arith) tt

write_octets_from_value-Supplied :
    (t : TypeTree) (n : OpTreeNode) (e : Option EscapeInfo)
    → Supplied n
    → Found Supplied (ok (write_octets_from_value t n e))
unfolding write_octets_from_value concept SuppliedIn
write_octets_from_value-Supplied t n e h =
    optional_if (eq_bytes (type_name t) (codes "int")) _ _
      (write_operation-Supplied e _ (Supplied-1 int_to_ascii n (omega arith) tt h))
      (optional_if (eq_bytes (type_name t) (codes "str")) _ _ (write_operation-Supplied e n h) tt)

read_value_from_octets-Supplied :
    (b : Bytes) (e : Option EscapeInfo) (t : TypeTree)
    → Found Supplied (ok (read_value_from_octets b e t))
unfolding read_value_from_octets Supplied SuppliedAll SuppliedIn concept children_count
read_value_from_octets-Supplied b e t =
    optional_if (eq_bytes (type_name t) (codes "int")) _ _
      (omega arith, (read_operation-Supplied b e, tt), tt)
      (optional_if (eq_bytes (type_name t) (codes "str")) _ _ (read_operation-Supplied b e) tt)

pad_get-Supplied : (name : Bytes) → Supplied (node_0 (lexical_pad_get name))
unfolding concept SuppliedIn
pad_get-Supplied name = Supplied-0 (lexical_pad_get name) (omega arith) tt

pad_set-Supplied :
    (name : Bytes) (n : OpTreeNode) → Supplied n → Supplied (node_1 (lexical_pad_set name) n)
unfolding concept SuppliedIn
pad_set-Supplied name n h = Supplied-1 (lexical_pad_set name) n (omega arith) tt h

set_read-Supplied :
    (name : Bytes) (v : Option OpTreeNode)
    → Found Supplied (ok v)
    → Found Supplied (set_read name v)
unfolding set_read
set_read-Supplied name none h = tt
set_read-Supplied name (some n) h = pad_set-Supplied name n h

visit_read-Supplied :
    (id : IdentifierReference) (b : Bytes) (e : Option EscapeInfo) (t : TypeTree)
    → Found Supplied (visit_read id b e t)
unfolding visit_read Supplies
visit_read-Supplied (identifier name) b e t =
    set_read-Supplied name _ (read_value_from_octets-Supplied b e t)
visit_read-Supplied (identifier_member name member) b e t =
    Found-bind Supplied (λ a. Supplied a.0)
      (recursive_variable_access t member (node_0 (lexical_pad_get name))
        (some (read_value_from_octets b e)))
      _
      (recursive_variable_access-Supplied t member _ _ (pad_get-Supplied name)
        (read_value_from_octets-Supplied b e))
      λ a h. pad_set-Supplied name a.0 h

visit_write-Supplied :
    (id : IdentifierReference) (e : Option EscapeInfo) (t : TypeTree)
    → Found Supplied (visit_write id e t)
unfolding visit_write Supplies
visit_write-Supplied (identifier name) e t =
    write_octets_from_value-Supplied t _ e (pad_get-Supplied name)
visit_write-Supplied (identifier_member name member) e t =
    Found-bind Supplied (λ a. Supplied a.0)
      (recursive_variable_access t member (node_0 (lexical_pad_get name)) none) _
      (recursive_variable_access-Supplied t member _ none (pad_get-Supplied name) tt)
      λ a h. write_octets_from_value-Supplied a.1 a.0 e h

initialize_element-Supplied :
    (variable : Bytes) (v : Option TypeParameterValue)
    → Found Supplied (initialize_element variable v)
unfolding initialize_element Supplied SuppliedAll SuppliedIn concept children_count
initialize_element-Supplied variable (some (type_parameter t)) =
    Found-if Supplied (eq_bytes (type_name t) tuple_name) _ _
      (omega arith, ((omega arith, tt, tt), tt), tt) tt
initialize_element-Supplied variable (some (boolean_literal b)) = tt
initialize_element-Supplied variable (some (integer_literal i)) = tt
initialize_element-Supplied variable (some (string_literal s)) = tt
initialize_element-Supplied variable none = tt

initialize-Supplied :
    (g : GetType) (collection variable : Bytes)
    → Found Supplied (initialize_loop_variable g collection variable)
unfolding initialize_loop_variable
initialize-Supplied g collection variable = Found-then Supplied (g collection) _ λ t.
    Found-if Supplied (eq_bytes (type_name t) (codes "array")) _ _
      (initialize_element-Supplied variable (find_parameter element_type_name (type_parameters t)))
      tt

read_loop-Supplied :
    (variable collection terminator : Bytes) (ops : OpTreeNodes) (start : OpTreeNode)
    → SuppliedAll ops
    → Supplied start
    → Supplied (read_loop variable collection terminator ops start)
unfolding Supplied SuppliedAll SuppliedIn SuppliedTree concept children_count
read_loop-Supplied variable collection terminator ops start h k = ground arith

write_loop-Supplied :
    (variable collection terminator : Bytes) (ops : OpTreeNodes)
    → SuppliedAll ops
    → Supplied (write_loop variable collection terminator ops)
unfolding Supplied SuppliedAll SuppliedIn SuppliedTree concept children_count
write_loop-Supplied variable collection terminator ops h = ground arith

mutual
  unfolding visit_action actions_to_optreenodes concept SuppliedIn SuppliedAll

  visit_action-Supplied :
      (t : TransitionType) (g : GetType) (a : Action) → Found Supplied (visit_action t g a)
  visit_action-Supplied read g (action_read_octets_until_terminator b id e) =
      Found-then Supplied (g (identifier_name id)) _ λ t. visit_read-Supplied id b e t
  visit_action-Supplied read g (action_read_static_octets b) =
      Supplied-0 (read_static_octets b) (omega arith) tt
  visit_action-Supplied write g (action_write_from_identifier id e) =
      Found-then Supplied (g (identifier_name id)) _ λ t. visit_write-Supplied id e t
  visit_action-Supplied write g (action_write_static_octets b) =
      Supplied-0 (write_static_octets b) (omega arith) tt
  visit_action-Supplied read g (action_write_from_identifier id e) = tt
  visit_action-Supplied read g (action_write_static_octets b) = tt
  visit_action-Supplied write g (action_read_octets_until_terminator b id e) = tt
  visit_action-Supplied write g (action_read_static_octets b) = tt
  visit_action-Supplied write g (action_loop v c b actions) =
      Found-then Supplied (create_get_type_wrapper g (identifier_name v) (identifier_name c)) _ λ w.
        Found-bind Supplied SuppliedAll (actions_to_optreenodes write w actions) _
          (actions-Supplied write w actions)
          λ ops h. write_loop-Supplied (identifier_name v) (identifier_name c) b ops h
  visit_action-Supplied read g (action_loop v c b actions) =
      Found-then Supplied (create_get_type_wrapper g (identifier_name v) (identifier_name c)) _ λ w.
        Found-bind Supplied SuppliedAll (actions_to_optreenodes read w actions) _
          (actions-Supplied read w actions)
          λ ops h.
            Found-bind Supplied Supplied
              (initialize_loop_variable w (identifier_name c) (identifier_name v)) _
              (initialize-Supplied w (identifier_name c) (identifier_name v))
              λ start k. read_loop-Supplied (identifier_name v) (identifier_name c) b ops start h k

  pub actions-Supplied :
      (t : TransitionType) (g : GetType) (actions : Actions)
      → Found SuppliedAll (actions_to_optreenodes t g actions)
  actions-Supplied t g no_action = tt
  actions-Supplied t g (action a rest) =
      Found-bind SuppliedAll Supplied (visit_action t g a) _ (visit_action-Supplied t g a) λ n h.
        Found-bind SuppliedAll SuppliedAll (actions_to_optreenodes t g rest) _
          (actions-Supplied t g rest) λ ns k. (h, k)
