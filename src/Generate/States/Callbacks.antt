-- ===== src/Generate/States/Callbacks.antt =====
-- generate.cpp: what the callback of a generated state is.
use building_programming_lan.Prelude.{◌≢◌, ◌≡◌, ◌⊎◌, List, [], ◌∷◌}
use building_programming_lan.Bytes.{Bytes}
use building_programming_lan.Value.{
  Condition, OpTree, optree, StateMap, no_state, state, transition_lookahead, dynamic_list,
  lexical_pad_get,
}
use building_programming_lan.Control.Machine.{closed_name, dictionary_name}
use building_programming_lan.Sema.{State}
use building_programming_lan.Generate.{read, write, node_0, node_2}
use building_programming_lan.Generate.States.{unary_state_callback}
use building_programming_lan.Generate.States.Conditions.{LooksFor}
use building_programming_lan.Generate.States.Directed.{AllOf, Directed}

abbrev pub lookahead_callback : List (Condition × Bytes) → OpTree
lookahead_callback cs = optree (
    node_2 dynamic_list (node_0 (transition_lookahead cs))
      (node_0 (lexical_pad_get dictionary_name)))

-- A callback of the host in `Closed`, and in another state if it writes; a lookahead for the transitions
-- of another state if it reads.
abbrev pub FitsState : Bytes → State → OpTree → Type 0
FitsState name s callback =
    ((callback ≡ unary_state_callback name)
      × ((name ≡ closed_name)
          ⊎ ((name ≢ closed_name) × (s.transitions ≢ []) × AllOf write s.transitions)))
    ⊎ ((name ≢ closed_name)
        × (cs : List (Condition × Bytes)) × (callback ≡ lookahead_callback cs)
        × LooksFor s.transitions cs
        × AllOf read s.transitions)

-- The states of the agent and of the map, one by one.
unfoldable pub FitsStates : List (Bytes × State) → StateMap → Type 0
FitsStates [] no_state = Unit {0}
FitsStates ((name, s) ∷ rest) (state n callback ts m) =
    (n ≡ name) × FitsState name s callback × FitsStates rest m
FitsStates _ _ = ⊥
