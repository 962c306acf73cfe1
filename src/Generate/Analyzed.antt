-- ===== src/Generate/Analyzed.antt =====
-- sema/analyze.cpp, generate.cpp and operation/statemachineoperation.cpp together: the state machine
-- that is generated for an analyzed agent.
use building_programming_lan.Prelude.{
  ◌≡◌, refl, subst, sym, ap, ◌∙◌, Bool, true, false, some, List, [], ◌∷◌, ◌||◌, Bool-cases, inl,
  inr, some-injective, if_true, if_false, arith,
}
use building_programming_lan.Bytes.{Bytes, eq_bytes}
use building_programming_lan.Outcome.{ok}
use building_programming_lan.Value.{
  StateMap, no_state, state, TransitionMap, no_transition, transition,
}
use building_programming_lan.Control.{StatePair, TransitionPair}
use building_programming_lan.Control.Machine.{find_state, find_transition}
use building_programming_lan.Syntax.{ProtocolDescription}
use building_programming_lan.Sema.{Transition, Agent}
use building_programming_lan.Sema.Analyze.{States, analyze_agent}
use building_programming_lan.Sema.Analyze.Targets.{
  declares, Targets, StatesTargets, analyze_agent-Closed,
}
use building_programming_lan.Generate.States.{construct_state_map}
use building_programming_lan.Generate.States.Outline.{
  Entry, transition_entries, state_entries, described_transitions, described_states, entries_lem,
}

EntryTargets : (Bytes → Type 0) → List Entry → Type 0
EntryTargets P [] = Unit {0}
EntryTargets P ((name, names, target) ∷ rest) = P target × EntryTargets P rest

StateEntryTargets : (Bytes → Type 0) → List (Bytes × List Entry) → Type 0
StateEntryTargets P [] = Unit {0}
StateEntryTargets P ((name, es) ∷ rest) = EntryTargets P es × StateEntryTargets P rest

has_entry : Bytes → List (Bytes × List Entry) → Bool
has_entry name [] = false
has_entry name ((n, es) ∷ rest) = eq_bytes n name || has_entry name rest

described-Targets :
    (P : Bytes → Type 0) (ts : List (Bytes × Transition × Bytes))
    → Targets P ts
    → EntryTargets P (described_transitions ts)
unfolding Targets EntryTargets described_transitions
described-Targets P [] h = tt
described-Targets P ((name, t, target) ∷ rest) (h, k) = (h, described-Targets P rest k)

states-Targets :
    (P : Bytes → Type 0) (ss : States)
    → StatesTargets P ss
    → StateEntryTargets P (described_states ss)
unfolding StatesTargets StateEntryTargets described_states
states-Targets P [] h = tt
states-Targets P ((name, s) ∷ rest) (h, k) =
    (described-Targets P s.transitions h, states-Targets P rest k)

declared-entry :
    (name : Bytes) (ss : States) → has_entry name (described_states ss) ≡ declares name ss
unfolding has_entry described_states declares
declared-entry name [] = refl
declared-entry name ((n, s) ∷ rest) =
    ap (λ (b : Bool). eq_bytes n name || b) (declared-entry name rest)

entry-find :
    (name : Bytes) (m : StateMap)
    → has_entry name (state_entries m) ≡ true
    → (s : StatePair) × (find_state name m ≡ some s)
unfolding has_entry state_entries find_state
entry-find name no_state h = cc
entry-find name (state n t ts rest) h = elim (Bool-cases (eq_bytes n name)) [
  | inl e ↦ (record { state_name = n; callback_optree = t; transitions = ts }, if_true _ _ e)
  | inr e ↦
      let found = entry-find name rest (ground (arith, e)) in (found.0, if_false _ _ e ∙ found.1)
]

module _ (P : Bytes → Type 0) where
  state-Targets :
      (name : Bytes) (m : StateMap) (s : StatePair)
      → StateEntryTargets P (state_entries m)
      → find_state name m ≡ some s
      → EntryTargets P (transition_entries s.transitions)
  unfolding StateEntryTargets state_entries find_state
  state-Targets name no_state s h e = cc
  state-Targets name (state n t ts rest) s (h, k) e = elim (Bool-cases (eq_bytes n name)) [
    | inl b ↦
        subst (λ (p : StatePair). EntryTargets P (transition_entries p.transitions))
          (some-injective (sym (if_true _ _ b) ∙ e)) h
    | inr b ↦ state-Targets name rest s k (sym (if_false _ _ b) ∙ e)
  ]

  transition-Target :
      (name : Bytes) (ts : TransitionMap) (t : TransitionPair)
      → EntryTargets P (transition_entries ts)
      → find_transition name ts ≡ some t
      → P t.target_state
  unfolding EntryTargets transition_entries find_transition
  transition-Target name no_transition t h e = cc
  transition-Target name (transition n o names target rest) t (h, k) e =
      elim (Bool-cases (eq_bytes n name)) [
        | inl b ↦
            subst (λ (p : TransitionPair). P p.target_state)
              (some-injective (sym (if_true _ _ b) ∙ e)) h
        | inr b ↦ transition-Target name rest t k (sym (if_false _ _ b) ∙ e)
      ]

-- In the state machine generated for an analyzed agent, each transition that a state offers leads to
-- a state that the machine finds.
pub target_found :
    (p : ProtocolDescription) (agent_name : Bytes) (a : Agent) (m : StateMap) (name t : Bytes)
    (s : StatePair) (tr : TransitionPair)
    → analyze_agent p agent_name ≡ some a
    → construct_state_map a.states ≡ ok (some m)
    → find_state name m ≡ some s
    → find_transition t s.transitions ≡ some tr
    → (target : StatePair) × (find_state tr.target_state m ≡ some target)
target_found p agent_name a m name t s tr h k e f =
    let P = λ (n : Bytes). declares n a.states ≡ true in
    let entries = entries_lem a.states m k in
    let targets =
      subst (StateEntryTargets P) (sym entries)
        (states-Targets P a.states (analyze_agent-Closed p agent_name a h)) in
    let declared = transition-Target P t s.transitions tr (state-Targets P name m s targets e) f in
    entry-find tr.target_state m
      (ap (has_entry tr.target_state) entries ∙ declared-entry tr.target_state a.states ∙ declared)
