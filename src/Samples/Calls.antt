-- ===== src/Samples/Calls.antt =====
-- The theorems on the preparation of a stack and on the arguments of a call at concrete inputs.
use building_programming_lan.Prelude.{ℕ, ◌≡◌, true, none, some, List, [], ◌∷◌, arith}
use building_programming_lan.Prelude.Int.{pos}
use building_programming_lan.Bytes.{codes}
use building_programming_lan.Outcome.{ok}
use building_programming_lan.Value.{
  OpTreeNode, node, leaf, child, subtract, dynamic_list, int32_literal, Value, bool,
}
use building_programming_lan.Pad.{PadStore, make_pad}
use building_programming_lan.Pad.Scope.{own}
use building_programming_lan.Frame.{Frame, concept, children_count, new_frame, has_arguments_ready}
use building_programming_lan.Continuation.{ready, prepare}
use building_programming_lan.Continuation.Prepare.{Complete, prepare-Complete}
use building_programming_lan.Interpreter.{bind_arguments}
use building_programming_lan.Interpreter.Call.{argument, bind_arguments_lem}

-- A difference whose first operand is the list of nothing.
abbrev tree : OpTreeNode
tree =
    node subtract (child (node dynamic_list leaf) (child (node (int32_literal (pos 3)) leaf) leaf))

tree-Complete : Complete tree
unfolding Complete concept children_count
tree-Complete = (omega arith, ((tt, tt), ((omega arith, tt), tt)))

prepare-Complete_example :
    (f : Frame) × (below : List Frame) × (prepare (new_frame tree 0 ∷ []) ≡ ok (f ∷ below, ready))
    × (has_arguments_ready f ≡ true)
prepare-Complete_example = prepare-Complete tree 0 [] tree-Complete

abbrev two_names : List (List ℕ)
two_names = codes "a" ∷ codes "b" ∷ []

abbrev one_argument : List Value
one_argument = bool true ∷ []

bind_arguments_lem_example :
    (s' : PadStore) × (bind_arguments two_names (some one_argument) 0 (make_pad [] none) ≡ ok s')
    × (own s' 0 (codes "a") ≡ argument (codes "a") two_names one_argument)
bind_arguments_lem_example = bind_arguments_lem two_names one_argument [] none (codes "a")
