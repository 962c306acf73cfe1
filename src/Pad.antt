-- ===== src/Pad.antt =====
-- lexicalpad.hpp and lexicalpad.cpp, with the operations lexicalpad*.hpp. Pads are shared and
-- mutable, so they live in a store: the pad at address `a` is the one with `a` older pads below it,
-- and a parent is older than its children.
pub mod Scope
use building_programming_lan.Prelude.{
  ℕ, Option, none, some, List, [], ◌∷◌, true, false, length, ◌==◌, if◌then◌else◌,
}
use building_programming_lan.Bytes.{Bytes, eq_bytes}
use building_programming_lan.Value.{
  Value, runtime_error, name_error, dictionary, Members, empty, member,
}

pub record LexicalPad : Type 0 where
  pub pad : Members
  pub parent : Option ℕ

abbrev pub PadStore : Type 0
PadStore = List LexicalPad

-- unordered_map::find
unfoldable pub find_member : Bytes → Members → Option Value
unfolding eq_bytes
find_member name empty = none
find_member name (member k v m) = if eq_bytes k name then some v else find_member name m

-- The assignment through the iterator of a key that is there.
unfoldable pub assign_member : Bytes → Value → Members → Members
assign_member name w empty = empty
assign_member name w (member k v m) =
    if eq_bytes k name then member k w m else member k v (assign_member name w m)

-- unordered_map::insert, which keeps the old value of a key that is there.
unfoldable pub insert_member : Bytes → Value → Members → Members
insert_member name w m = elim (find_member name m) [ none ↦ member name w m | some _ ↦ m ]

-- LexicalPad::get. The walk up the parents is a walk down the store.
unfoldable pub get : PadStore → ℕ → Bytes → Value
unfolding find_member
get [] a name = runtime_error name_error
get (p ∷ older) a name = elim (a == length older) [
  | true ↦ elim (find_member name p.pad) [
    | some v ↦ v
    | none ↦ elim p.parent [ some q ↦ get older q name | none ↦ runtime_error name_error ]
  ]
  | false ↦ get older a name
]

-- LexicalPad::set, with the old value that it returns.
unfoldable pub set : PadStore → ℕ → Bytes → Value → PadStore × Value
unfolding find_member assign_member
set [] a name w = ([], runtime_error name_error)
set (p ∷ older) a name w = elim (a == length older) [
  | true ↦ elim (find_member name p.pad) [
    | some old ↦ (record p { pad = assign_member name w p.pad } ∷ older, old)
    | none ↦ elim p.parent [
      | some q ↦ (p ∷ (set older q name w).0, (set older q name w).1)
      | none ↦ (p ∷ older, runtime_error name_error)
    ]
  ]
  | false ↦ (p ∷ (set older a name w).0, (set older a name w).1)
]

-- LexicalPad::initialize
unfoldable pub initialize : PadStore → ℕ → Bytes → Value → PadStore
unfolding insert_member
initialize [] a name w = []
initialize (p ∷ older) a name w =
    if a == length older
    then record p { pad = insert_member name w p.pad } ∷ older
    else p ∷ initialize older a name w

-- LexicalPad::initialize_global
unfoldable pub initialize_global : PadStore → ℕ → Bytes → Value → PadStore
unfolding insert_member
initialize_global [] a name w = []
initialize_global (p ∷ older) a name w = elim (a == length older) [
  | true ↦ elim p.parent [
    | some q ↦ p ∷ initialize_global older q name w
    | none ↦ record p { pad = insert_member name w p.pad } ∷ older
  ]
  | false ↦ p ∷ initialize_global older a name w
]

-- LexicalPad::as_dict: the names of this pad alone.
unfoldable pub as_dict : PadStore → ℕ → Value
as_dict [] a = dictionary empty
as_dict (p ∷ older) a = if a == length older then dictionary p.pad else as_dict older a

-- `std::make_shared<LexicalPad>(parent)`: the new pad's address is the number of pads before it.
unfoldable pub make_pad : PadStore → Option ℕ → PadStore
make_pad s parent = record { pad = empty; parent = parent } ∷ s
