-- ===== src/Generate/States/Directed.antt =====
-- generate.cpp: the transitions of a state that is generated all read or all write.
use building_programming_lan.Prelude.{
  arith, ◌≢◌, ◌∙◌, ◌≡◌, refl, subst, sym, ◌⊎◌, inl, inr, true, Option, none, some, List, [], ◌∷◌,
  if◌then◌else◌, Bool-cases, if_true, if_false,
}
use building_programming_lan.Bytes.{Bytes}
use building_programming_lan.Outcome.{Outcome, ok}
use building_programming_lan.Value.{TransitionMap}
use building_programming_lan.Sema.{Transition}
use building_programming_lan.Generate.{TransitionType, read, write}
use building_programming_lan.Generate.Supplied.{Found, Found-bind, Found-then}
use building_programming_lan.Generate.States.{
  TransitionInfo, transition_type, generate_transition_info, abstract_transition, visit_transition,
  agree, add_transition, construct_transitions,
}
use building_programming_lan.Generate.States.Conditions.{some≢none}

unfoldable pub AllOf : TransitionType → List (Bytes × Transition × Bytes) → Type 0
AllOf d [] = Unit {0}
AllOf d ((name, t, target) ∷ rest) = (transition_type t ≡ d) × AllOf d rest

∷≢[] : {A : Type 0} {x : A} {xs : List A} → x ∷ xs ≢ []
∷≢[] h = ground (arith, h)

visit-type :
    (t : Transition) (target : Bytes)
    → Found (λ r. r.0 ≡ transition_type t) (visit_transition t target)
unfolding visit_transition
visit-type t target =
    Found-then (λ (r : TransitionType × TransitionInfo). r.0 ≡ transition_type t)
      (generate_transition_info (transition_type t) (abstract_transition t) target) _ λ i. refl

-- The type after the transitions `ts`, if it was `so_far` before them.
unfoldable pub Directed :
    Option TransitionType → List (Bytes × Transition × Bytes) → Option TransitionType → Type 0
Directed so_far ts none = (so_far ≡ none) × (ts ≡ [])
Directed so_far ts (some d) = (((so_far ≡ none) × (ts ≢ [])) ⊎ (so_far ≡ some d)) × AllOf d ts

agree-type :
    (so_far : Option TransitionType) (t : TransitionType)
    → agree so_far t ≡ true
    → (so_far ≡ none) ⊎ (so_far ≡ some t)
unfolding agree
agree-type none t e = inl refl
agree-type (some read) read e = inr refl
agree-type (some write) write e = inr refl
agree-type (some read) write e = cc
agree-type (some write) read e = cc

none-Directed : (so_far : Option TransitionType) → Directed so_far [] so_far
unfolding Directed AllOf
none-Directed none = (refl, refl)
none-Directed (some d) = (inr refl, tt)

add-Directed :
    (so_far r : Option TransitionType) (f : TransitionType) (name : Bytes) (t : Transition)
    (target : Bytes) (rest : List (Bytes × Transition × Bytes))
    → agree so_far f ≡ true
    → f ≡ transition_type t
    → Directed (some f) rest r
    → Directed so_far ((name, t, target) ∷ rest) r
unfolding Directed AllOf
add-Directed so_far none f name t target rest a e h = cc
add-Directed so_far (some d) f name t target rest a e (inl h, k) = absurd (some≢none h.0)
add-Directed so_far (some d) f name t target rest a e (inr h, k) = (
  elim (agree-type so_far f a) [ inl fresh ↦ inl (fresh, λ q. ∷≢[] q) | inr same ↦ inr (same ∙ h) ],
  (cc, k),
)

Found-agree :
    (so_far : Option TransitionType) (t : TransitionType) (ts : List (Bytes × Transition × Bytes))
    (x : Outcome (Option (TransitionMap × Option TransitionType)))
    → (agree so_far t ≡ true → Found (λ r. Directed so_far ts r.1) x)
    → Found (λ r. Directed so_far ts r.1) (if agree so_far t then x else ok none)
Found-agree so_far t ts x h = elim (Bool-cases (agree so_far t)) [
  | inl e ↦
      subst (Found (λ (r : TransitionMap × Option TransitionType). Directed so_far ts r.1))
        (sym (if_true x (ok none) e)) (h e)
  | inr e ↦
      subst (Found (λ (r : TransitionMap × Option TransitionType). Directed so_far ts r.1))
        (sym (if_false x (ok none) e)) tt
]

pub transitions-Directed :
    (so_far : Option TransitionType) (ts : List (Bytes × Transition × Bytes))
    → Found (λ r. Directed so_far ts r.1) (construct_transitions so_far ts)
unfolding construct_transitions add_transition
transitions-Directed so_far [] = none-Directed so_far
transitions-Directed so_far ((name, t, target) ∷ rest) =
    let all = (name, t, target) ∷ rest in
    let P = λ (r : TransitionMap × Option TransitionType). Directed so_far all r.1 in
    Found-bind P (λ (r : TransitionType × TransitionInfo). r.0 ≡ transition_type t)
      (visit_transition t target) _ (visit-type t target)
      λ f h. Found-agree so_far f.0 all _ λ a.
        Found-bind P (λ (r : TransitionMap × Option TransitionType). Directed (some f.0) rest r.1)
          (construct_transitions (some f.0) rest) _ (transitions-Directed (some f.0) rest)
          λ r k. add-Directed so_far r.1 f.0 name t target rest a h k

pub not_empty :
    (ts : List (Bytes × Transition × Bytes)) (d : TransitionType)
    → Directed none ts (some d)
    → ts ≢ []
unfolding Directed
not_empty ts d (inl (_, n), _) = n
not_empty ts d (inr h, _) = absurd (some≢none (sym h))
