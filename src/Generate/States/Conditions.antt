-- ===== src/Generate/States/Conditions.antt =====
-- generate.cpp: what a state that reads looks ahead for.
use building_programming_lan.Prelude.{
  false, arith, ◌≢◌, ◌∙◌, some-injective, ◌≡◌, refl, subst, sym, ◌⊎◌, inl, inr, Option, none, some,
  List, [], ◌∷◌, Bool-cases, if_true, if_false,
}
use mathlib.Core.Bool.{false≢true}
use building_programming_lan.Bytes.{Bytes, eq_bytes, eq_bytes_iff}
use building_programming_lan.Outcome.{ok}
use building_programming_lan.Value.{Condition, eof_condition, static_string, match_until_terminator}
use building_programming_lan.Control.Machine.{closed_name}
use building_programming_lan.Syntax.{IdentifierReference}
use building_programming_lan.Sema.{
  Transition, read_transition, write_transition, EscapeInfo, Actions, no_action, action,
  action_read_static_octets, action_read_octets_until_terminator, action_write_from_identifier,
  action_write_static_octets, action_loop,
}
use building_programming_lan.Generate.Supplied.{Found}
use building_programming_lan.Generate.States.{
  abstract_transition, condition_for, get_transition_condition, front_condition, add_condition,
  conditions_of,
}

pub some≢none : {A : Type 0} {x : A} → some x ≢ none
some≢none h = ground (arith, h)

pub different : (a b : Bytes) → eq_bytes a b ≡ false → a ≢ b
different a b e q = false≢true (sym e ∙ (eq_bytes_iff a b).1 q)

-- The condition of what a list of actions reads first; a loop reads first what its body does.
pub data Begins : Actions → Condition → Type 0 where
  begins_static :
      (octets : Bytes) (rest : Actions)
      → Begins (action (action_read_static_octets octets) rest) (static_string octets)
  begins_until :
      (terminator : Bytes) (id : IdentifierReference) (escape : Option EscapeInfo) (rest : Actions)
      → Begins
          (action (action_read_octets_until_terminator terminator id escape) rest)
          (match_until_terminator terminator)
  begins_loop :
      (variable collection : IdentifierReference) (terminator : Bytes) (body rest : Actions)
      (c : Condition)
      → Begins body c
      → Begins (action (action_loop variable collection terminator body) rest) c

-- The condition of a transition: the end of the input where it leads to `Closed`, and otherwise what its
-- message begins with.
abbrev pub Expects : Bytes → Transition → Condition → Type 0
Expects target t c =
    ((target ≡ closed_name) × (c ≡ eof_condition))
    ⊎ ((target ≢ closed_name) × Begins (abstract_transition t).actions c)

-- The conditions are those of the transitions, in their order, each with the transition's name.
unfoldable pub LooksFor : List (Bytes × Transition × Bytes) → List (Condition × Bytes) → Type 0
LooksFor [] [] = Unit {0}
LooksFor ((name, t, target) ∷ ts) ((c, n) ∷ cs) = (n ≡ name) × Expects target t c × LooksFor ts cs
LooksFor _ _ = ⊥

front-Begins : (a : Actions) (c : Condition) → front_condition a ≡ some c → Begins a c
unfolding front_condition
front-Begins no_action c h = absurd (some≢none (sym h))
front-Begins (action (action_read_static_octets o) rest) c h =
    subst (Begins (action (action_read_static_octets o) rest)) (some-injective h)
      (begins_static o rest)
front-Begins (action (action_read_octets_until_terminator t id escape) rest) c h =
    subst (Begins (action (action_read_octets_until_terminator t id escape) rest))
      (some-injective h) (begins_until t id escape rest)
front-Begins (action (action_write_from_identifier id escape) rest) c h = absurd (some≢none (sym h))
front-Begins (action (action_write_static_octets o) rest) c h = absurd (some≢none (sym h))
front-Begins (action (action_loop v l t body) rest) c h =
    begins_loop v l t body rest c (front-Begins body c h)

transition-Begins :
    (t : Transition) (c : Condition)
    → get_transition_condition t ≡ some c
    → Begins (abstract_transition t).actions c
unfolding get_transition_condition
transition-Begins (write_transition tr) c h = absurd (some≢none (sym h))
transition-Begins (read_transition tr) c h = front-Begins tr.actions c h

condition-Expects :
    (target : Bytes) (t : Transition) (c : Condition)
    → condition_for target t ≡ some c
    → Expects target t c
unfolding condition_for
condition-Expects target t c h = elim (Bool-cases (eq_bytes target closed_name)) [
  | inl e ↦
      inl ((eq_bytes_iff target closed_name).0 e, sym (some-injective (sym (if_true _ _ e) ∙ h)))
  | inr e ↦ inr (different target closed_name e, transition-Begins t c (sym (if_false _ _ e) ∙ h))
]

add-LooksFor :
    (name : Bytes) (t : Transition) (target : Bytes) (c : Option Condition)
    (o : Option (List (Condition × Bytes))) (ts : List (Bytes × Transition × Bytes))
    → ((d : Condition) → c ≡ some d → Expects target t d)
    → Found (LooksFor ts) (ok o)
    → Found (LooksFor ((name, t, target) ∷ ts)) (ok (add_condition name c o))
unfolding add_condition LooksFor
add-LooksFor name t target none o ts e h = tt
add-LooksFor name t target (some c) none ts e h = tt
add-LooksFor name t target (some c) (some cs) ts e h = (refl, e c refl, h)

pub conditions-LooksFor :
    (ts : List (Bytes × Transition × Bytes)) → Found (LooksFor ts) (ok (conditions_of ts))
unfolding conditions_of LooksFor
conditions-LooksFor [] = tt
conditions-LooksFor ((name, t, target) ∷ rest) =
    add-LooksFor name t target (condition_for target t) (conditions_of rest) rest
      (condition-Expects target t) (conditions-LooksFor rest)
