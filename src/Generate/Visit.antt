-- ===== src/Generate/Visit.antt =====
-- generate.cpp: `visit_action` and the sequence of the operations of several actions.
use building_programming_lan.Prelude.{true, Option, none, some, [], ◌∷◌, if◌then◌else◌}
use building_programming_lan.Bytes.{Bytes, eq_bytes, codes}
use building_programming_lan.Outcome.{Outcome, ok, ◌>>?◌}
use building_programming_lan.Value.{
  OpTreeNode, node, OpTreeNodes, leaf, child, optree, generate_list, op_sequence,
  function_call_for_each, lexical_pad_get, lexical_pad_set, lexical_pad_initialize,
  dictionary_initialize, read_static_octets, terminate_list_if_read_ahead, write_static_octets,
  static_callable,
}
use building_programming_lan.Syntax.{
  IdentifierReference, identifier, identifier_member, identifier_name, TypeTree, TypeParameterValue,
  type_parameter, type_name, type_parameters, find_parameter,
}
use building_programming_lan.Sema.{
  EscapeInfo, Action, action_read_static_octets, action_read_octets_until_terminator,
  action_write_from_identifier, action_write_static_octets, action_loop, Actions, no_action, action,
}
use building_programming_lan.Generate.{
  read, write, TransitionType, GetType, node_0, node_1, node_2, element_type_name,
  create_get_type_wrapper, tuple_name, recursive_variable_access, write_octets_from_value,
  read_value_from_octets,
}

-- `visit_action` for a ReadOctetsUntilTerminator, with the type of its outermost identifier.
unfoldable pub set_read : Bytes → Option OpTreeNode → Outcome (Option OpTreeNode)
set_read name none = ok none
set_read name (some n) = ok (some (node_1 (lexical_pad_set name) n))

unfoldable pub visit_read :
    IdentifierReference → Bytes → Option EscapeInfo → TypeTree → Outcome (Option OpTreeNode)
unfolding set_read read_value_from_octets recursive_variable_access
visit_read (identifier name) terminator escape t =
    set_read name (read_value_from_octets terminator escape t)
visit_read (identifier_member name member) terminator escape t =
    recursive_variable_access t member (node_0 (lexical_pad_get name))
      (some (read_value_from_octets terminator escape))
    >>? λ access. ok (some (node_1 (lexical_pad_set name) access.0))

-- `visit_action` for a WriteFromIdentifier.
unfoldable pub visit_write :
    IdentifierReference → Option EscapeInfo → TypeTree → Outcome (Option OpTreeNode)
unfolding write_octets_from_value recursive_variable_access
visit_write (identifier name) escape t =
    ok (write_octets_from_value t (node_0 (lexical_pad_get name)) escape)
visit_write (identifier_member name member) escape t =
    recursive_variable_access t member (node_0 (lexical_pad_get name)) none >>? λ access.
    ok (write_octets_from_value access.1 access.0 escape)

-- Whether the element type makes the loop's variable a dictionary.
unfoldable pub initialize_element : Bytes → Option TypeParameterValue → Outcome (Option OpTreeNode)
unfolding eq_bytes type_name
initialize_element variable (some (type_parameter t)) =
    if eq_bytes (type_name t) tuple_name
    then ok (some (node_1 (lexical_pad_initialize variable) (node_0 dictionary_initialize)))
    else ok none
initialize_element variable _ = ok none

unfoldable pub initialize_loop_variable : GetType → Bytes → Bytes → Outcome (Option OpTreeNode)
unfolding initialize_element find_parameter type_parameters eq_bytes type_name
initialize_loop_variable get_type collection variable = get_type collection >>? λ t.
    if eq_bytes (type_name t) (codes "array")
    then initialize_element variable (find_parameter element_type_name (type_parameters t))
    else ok none

-- The trees of a loop that reads and of one that writes.
abbrev pub read_loop : Bytes → Bytes → Bytes → OpTreeNodes → OpTreeNode → OpTreeNode
read_loop variable collection terminator ops initialize =
    let body = node op_sequence (
      child initialize (
        child (node op_sequence ops) (
          child (node_0 (terminate_list_if_read_ahead terminator))
            (child (node_0 (lexical_pad_get variable)) leaf)))) in
    node_1 (lexical_pad_set collection)
      (node_1 generate_list (node_0 (static_callable (optree body) [] true)))

abbrev pub write_loop : Bytes → Bytes → Bytes → OpTreeNodes → OpTreeNode
write_loop variable collection terminator ops =
    node_2 op_sequence
      (node_2 (function_call_for_each true)
        (node_0 (static_callable (optree (node op_sequence ops)) (variable ∷ []) true))
        (node_0 (lexical_pad_get collection)))
      (node_0 (write_static_octets terminator))

-- `visit_action` with its fallback, and `actions_to_optreenodes`.
unfoldable mutual
  unfolding visit_read visit_write create_get_type_wrapper initialize_loop_variable identifier_name

  pub visit_action : TransitionType → GetType → Action → Outcome (Option OpTreeNode)
  visit_action read get_type (action_read_octets_until_terminator terminator id escape) =
      get_type (identifier_name id) >>? λ t. visit_read id terminator escape t
  visit_action read get_type (action_read_static_octets octets) =
      ok (some (node_0 (read_static_octets octets)))
  visit_action write get_type (action_write_from_identifier id escape) =
      get_type (identifier_name id) >>? λ t. visit_write id escape t
  visit_action write get_type (action_write_static_octets octets) =
      ok (some (node_0 (write_static_octets octets)))
  visit_action write get_type (action_loop variable collection terminator actions) =
      create_get_type_wrapper get_type (identifier_name variable) (identifier_name collection)
      >>? λ wrapped. actions_to_optreenodes write wrapped actions >>? λ ops.
          ok (
            some
              (write_loop (identifier_name variable) (identifier_name collection) terminator ops))
  visit_action read get_type (action_loop variable collection terminator actions) =
      create_get_type_wrapper get_type (identifier_name variable) (identifier_name collection)
      >>? λ wrapped. actions_to_optreenodes read wrapped actions >>? λ ops.
          initialize_loop_variable wrapped (identifier_name collection) (identifier_name variable)
          >>? λ start. ok (
              some (
                read_loop (identifier_name variable) (identifier_name collection) terminator ops
                  start))
  visit_action _ get_type _ = ok none

  pub actions_to_optreenodes : TransitionType → GetType → Actions → Outcome (Option OpTreeNodes)
  actions_to_optreenodes t get_type no_action = ok (some leaf)
  actions_to_optreenodes t get_type (action a rest) = visit_action t get_type a >>? λ op.
      actions_to_optreenodes t get_type rest >>? λ ops. ok (some (child op ops))
