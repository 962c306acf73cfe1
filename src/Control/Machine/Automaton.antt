-- ===== src/Control/Machine/Automaton.antt =====
-- What each evaluation of the state machine of operation/statemachineoperation.cpp leaves in its
-- context.
use building_programming_lan.Prelude.{
  ◌≡◌, ◌∙◌, refl, sym, subst, true, false, Bool, Option, none, some, [], ◌∷◌, inl, inr, Bool-cases,
  arith, if_true, if_false,
}
use building_programming_lan.Bytes.{Bytes, eq_bytes, eq_bytes_iff}
use building_programming_lan.Outcome.{ok, ok-injective}
use building_programming_lan.Value.{
  StateMap, no_state, state, TransitionMap, no_transition, transition, Value, dictionary,
  runtime_error, Members, empty, value, blocked, OperationResult, list, cons, nil, octets,
}
use building_programming_lan.Control.{
  ControlContext, StatePair, TransitionPair, ProcessingInfo, ProcessingMode, transition_mode,
  state_mode,
}
use building_programming_lan.Control.Machine.{
  find_state, find_transition, take_transition, enter_state, follow, process_mode, resume, dispatch,
  process_state_return, process_transition_return, process_return, open_machine,
  start_state_callback, start_transition_callback, closed_name, open_name,
}

-- The transition that led to the target state is one of the source state.
abbrev pub Entered : ProcessingInfo → Type 0
Entered info = elim info.transition [
  | none ↦ Unit {0}
  | some t ↦ elim info.from_state [
    | none ↦ ⊥
    | some f ↦
        (find_transition t.transition_name f.transitions ≡ some t)
        × (t.target_state ≡ info.to_state.state_name)
  ]
]

-- The state is one of the machine's.
abbrev pub Declared : StateMap → ProcessingInfo → Type 0
Declared states info =
    (find_state info.to_state.state_name states ≡ some info.to_state) × Entered info

-- What `additional_info` holds, as far as it is known.
abbrev pub TrackedInfo : StateMap → Option ProcessingInfo → Type 0
TrackedInfo states none = Unit {0}
TrackedInfo states (some info) = Declared states info

abbrev pub Tracked : StateMap → ControlContext → Type 0
Tracked states ctx = TrackedInfo states ctx.additional_info

find_state_name :
    (n : Bytes) (states : StateMap) (s : StatePair)
    → find_state n states ≡ some s
    → n ≡ s.state_name
unfolding find_state
find_state_name n no_state s h = absurd cc
find_state_name n (state m t ts rest) s h =
    ground (arith, eq_bytes_iff m n, find_state_name n rest s)

find_transition_name :
    (n : Bytes) (ts : TransitionMap) (t : TransitionPair)
    → find_transition n ts ≡ some t
    → n ≡ t.transition_name
unfolding find_transition
find_transition_name n no_transition t h = absurd cc
find_transition_name n (transition m tr names target rest) t h =
    ground (arith, eq_bytes_iff m n, find_transition_name n rest t)

-- The target state is `Closed`.
abbrev pub ClosedAt : Option ProcessingInfo → Type 0
ClosedAt none = ⊥
ClosedAt (some info) = info.to_state.state_name ≡ closed_name

-- The machine ends with an error, or with a dictionary in the state `Closed`.
abbrev pub Ended : Value → ControlContext → Type 0
Ended (runtime_error e) ctx = Unit {0}
Ended (dictionary d) ctx = ClosedAt ctx.additional_info
Ended _ ctx = ⊥

-- What holds of the context that an evaluation leaves.
abbrev pub Blocks : StateMap → ControlContext × OperationResult → Type 0
Blocks states r = elim r.1 [ value v ↦ Ended v r.0 | blocked w ↦ Tracked states r.0 ]

enter_state-Blocks :
    (ctx : ControlContext) (info : ProcessingInfo) (states : StateMap) (t : Bytes) (d : Members)
    (tr : TransitionPair) (o : Option StatePair) (r : ControlContext × OperationResult)
    → find_transition t info.to_state.transitions ≡ some tr
    → find_state tr.target_state states ≡ o
    → enter_state ctx info d tr o ≡ ok r
    → Blocks states r
unfolding enter_state start_transition_callback
enter_state-Blocks ctx info states t d tr none r e f h = subst (Blocks states) (ok-injective h) tt
enter_state-Blocks ctx info states t d tr (some s) r e f h =
    subst (Blocks states) (ok-injective h) (
      subst (λ (n : Bytes). find_state n states ≡ some s)
          (find_state_name tr.target_state states s f) f,
      (
        subst (λ (n : Bytes). find_transition n info.to_state.transitions ≡ some tr)
            (find_transition_name t info.to_state.transitions tr e) e,
        find_state_name tr.target_state states s f,
      ),
    )

follow-Blocks :
    (ctx : ControlContext) (info : ProcessingInfo) (states : StateMap) (t : Bytes) (d : Members)
    (o : Option TransitionPair) (r : ControlContext × OperationResult)
    → find_transition t info.to_state.transitions ≡ o
    → follow ctx info states d o ≡ ok r
    → Blocks states r
unfolding follow
follow-Blocks ctx info states t d none r e h = subst (Blocks states) (ok-injective h) tt
follow-Blocks ctx info states t d (some tr) r e h =
    enter_state-Blocks ctx info states t d tr (find_state tr.target_state states) r e refl h

closed_at :
    (ctx : ControlContext) (info : ProcessingInfo)
    → ctx.additional_info ≡ some info
    → info.to_state.state_name ≡ closed_name
    → ClosedAt ctx.additional_info
closed_at ctx info a e = subst ClosedAt (sym a) e

take-Blocks :
    (ctx : ControlContext) (info : ProcessingInfo) (states : StateMap) (t : Bytes) (d : Members)
    (r : ControlContext × OperationResult)
    → ctx.additional_info ≡ some info
    → take_transition ctx info states t d ≡ ok r
    → Blocks states r
unfolding take_transition
take-Blocks ctx info states t d r a h =
    elim (Bool-cases (eq_bytes info.to_state.state_name closed_name)) [
      | inl e ↦
          subst (Blocks states) (ok-injective (sym (if_true _ _ e) ∙ h))
            (closed_at ctx info a ((eq_bytes_iff info.to_state.state_name closed_name).0 e))
      | inr e ↦
          follow-Blocks ctx info states t d (find_transition t info.to_state.transitions) r refl
            (sym (if_false _ _ e) ∙ h)
    ]

start_state-Blocks :
    (ctx : ControlContext) (info : ProcessingInfo) (states : StateMap)
    (r : ControlContext × OperationResult)
    → Declared states info
    → start_state_callback ctx info ≡ ok r
    → Blocks states r
unfolding start_state_callback
start_state-Blocks ctx info states r g h = subst (Blocks states) (ok-injective h) g

process_state-Blocks :
    (ctx : ControlContext) (info : ProcessingInfo) (states : StateMap) (v : Value)
    (r : ControlContext × OperationResult)
    → ctx.additional_info ≡ some info
    → process_state_return ctx info states v ≡ ok r
    → Blocks states r
unfolding process_state_return
process_state-Blocks ctx info states (list (cons (octets t) (cons (dictionary d) nil))) r a h =
    take-Blocks ctx info states t d r a h
process_state-Blocks ctx info states _ r a h = subst (Blocks states) (ok-injective h) tt

process_transition-Blocks :
    (ctx : ControlContext) (info : ProcessingInfo) (states : StateMap) (v : Value)
    (r : ControlContext × OperationResult)
    → Declared states info
    → process_transition_return ctx info v ≡ ok r
    → Blocks states r
unfolding process_transition_return
process_transition-Blocks ctx info states (list (cons (dictionary d) nil)) r g h =
    start_state-Blocks (record ctx { accumulator = some (dictionary d ∷ []) }) info states r g h
process_transition-Blocks ctx info states (list (cons (runtime_error e) nil)) r g h =
    subst (Blocks states) (ok-injective h) tt
process_transition-Blocks ctx info states _ r g h = subst (Blocks states) (ok-injective h) tt

process_mode-Blocks :
    (ctx : ControlContext) (info : ProcessingInfo) (states : StateMap) (v : Value)
    (m : ProcessingMode) (o : Option TransitionPair) (r : ControlContext × OperationResult)
    → Declared states info
    → ctx.additional_info ≡ some info
    → process_mode ctx info states v m o ≡ ok r
    → Blocks states r
unfolding process_mode
process_mode-Blocks ctx info states v transition_mode none r g a h =
    subst (Blocks states) (ok-injective h) tt
process_mode-Blocks ctx info states v transition_mode (some t) r g a h =
    process_transition-Blocks ctx info states v r g h
process_mode-Blocks ctx info states v state_mode o r g a h =
    process_state-Blocks ctx info states v r a h

resume-Blocks :
    (ctx : ControlContext) (o : Option ProcessingInfo) (states : StateMap) (v : Value)
    (r : ControlContext × OperationResult)
    → TrackedInfo states o
    → ctx.additional_info ≡ o
    → resume ctx o states v ≡ ok r
    → Blocks states r
unfolding resume process_return
resume-Blocks ctx none states v r g a h = absurd cc
resume-Blocks ctx (some info) states v r g a h =
    process_mode-Blocks ctx info states v info.processing_mode info.transition r g a h

open-Blocks :
    (ctx : ControlContext) (states : StateMap) (o : Option StatePair)
    (r : ControlContext × OperationResult)
    → find_state open_name states ≡ o
    → open_machine ctx o ≡ ok r
    → Blocks states r
unfolding open_machine
open-Blocks ctx states none r e h = subst (Blocks states) (ok-injective h) tt
open-Blocks ctx states (some s) r e h =
    start_state-Blocks (record ctx { accumulator = some (dictionary empty ∷ []) })
      (record {
        processing_mode = transition_mode;
        from_state = none;
        transition = none;
        to_state = s;
      })
      states r
      (
        subst (λ (n : Bytes). find_state n states ≡ some s) (find_state_name open_name states s e)
            e,
        tt,
      )
      h

pub dispatch-Blocks :
    (ctx : ControlContext) (states : StateMap) (c : Option Value) (b : Bool) (v : Option Value)
    (r : ControlContext × OperationResult)
    → Tracked states ctx
    → dispatch states ctx c b v ≡ ok r
    → Blocks states r
unfolding dispatch
dispatch-Blocks ctx states none b v r g h =
    open-Blocks ctx states (find_state open_name states) r refl h
dispatch-Blocks ctx states (some c) false v r g h = subst (Blocks states) (ok-injective h) g
dispatch-Blocks ctx states (some c) true none r g h = subst (Blocks states) (ok-injective h) g
dispatch-Blocks ctx states (some c) true (some v) r g h =
    resume-Blocks ctx ctx.additional_info states v r g refl h
