-- ===== src/Sema/Analyze/Targets.antt =====
-- sema/analyze.cpp: the targets of the transitions are states of the agent.
use building_programming_lan.Prelude.{
  ◌≡◌, refl, subst, ◌∙◌, Bool, true, false, Option, none, some, List, [], ◌∷◌, ◌||◌, some-injective,
  if◌then◌else◌, arith,
}
use building_programming_lan.Bytes.{Bytes, eq_bytes, eq_bytes_refl}
use building_programming_lan.Syntax.{identifier_name, Message, ProtocolDescription}
use building_programming_lan.Sema.{Transition, Agent}
use building_programming_lan.Sema.Analyze.{
  Transitions, analyze_transitions, transition_named, States, ensure_state, assign_transition,
  assign_in_state, assemble_message, assemble, agent_of, analyze_agent,
}

-- Whether there is a state of this name.
unfoldable pub declares : Bytes → States → Bool
declares name [] = false
declares name ((n, s) ∷ rest) = eq_bytes n name || declares name rest

-- All targets have a property.
unfoldable pub Targets : (Bytes → Type 0) → List (Bytes × Transition × Bytes) → Type 0
Targets P [] = Unit {0}
Targets P ((name, t, target) ∷ rest) = P target × Targets P rest

unfoldable pub StatesTargets : (Bytes → Type 0) → States → Type 0
StatesTargets P [] = Unit {0}
StatesTargets P ((n, s) ∷ rest) = Targets P s.transitions × StatesTargets P rest

-- All targets are states of the same agent.
abbrev pub Closed : States → Type 0
Closed ss = StatesTargets (λ n. declares n ss ≡ true) ss

if_Type : {A : Type 0} (P : A → Type 0) (b : Bool) (x y : A) → P x → P y → P (if b then x else y)
if_Type P true x y h k = h
if_Type P false x y h k = k

or_true : (a : Bool) → (a || true) ≡ true
or_true true = refl
or_true false = refl

declares-ensure : (name : Bytes) (ss : States) → declares name (ensure_state name ss) ≡ true
unfolding declares ensure_state
declares-ensure name [] = rw (eq_bytes_refl name) refl
declares-ensure name ((n, s) ∷ rest) = ground (arith, declares-ensure name rest)

declares-ensure_more :
    (m name : Bytes) (ss : States) → declares m ss ≡ true → declares m (ensure_state name ss) ≡ true
unfolding declares ensure_state
declares-ensure_more m name [] h = cc
declares-ensure_more m name ((n, s) ∷ rest) h = ground (arith, declares-ensure_more m name rest)

assign_in_state-declares :
    (m when name : Bytes) (t : Transition) (target : Bytes) (ss : States)
    → declares m (assign_in_state when name t target ss) ≡ declares m ss
unfolding declares assign_in_state
assign_in_state-declares m when name t target [] = refl
assign_in_state-declares m when name t target ((n, s) ∷ rest) =
    ground (arith, assign_in_state-declares m when name t target rest)

Targets-mono :
    (P Q : Bytes → Type 0) (ts : List (Bytes × Transition × Bytes))
    → ((n : Bytes) → P n → Q n)
    → Targets P ts
    → Targets Q ts
unfolding Targets
Targets-mono P Q [] f h = tt
Targets-mono P Q ((name, t, target) ∷ rest) f (h, k) = (f target h, Targets-mono P Q rest f k)

StatesTargets-mono :
    (P Q : Bytes → Type 0) (ss : States)
    → ((n : Bytes) → P n → Q n)
    → StatesTargets P ss
    → StatesTargets Q ss
unfolding StatesTargets
StatesTargets-mono P Q [] f h = tt
StatesTargets-mono P Q ((n, s) ∷ rest) f (h, k) =
    (Targets-mono P Q s.transitions f h, StatesTargets-mono P Q rest f k)

module _ (P : Bytes → Type 0) where
  assign_transition-Targets :
      (name : Bytes) (t : Transition) (target : Bytes) (ts : List (Bytes × Transition × Bytes))
      → P target
      → Targets P ts
      → Targets P (assign_transition name t target ts)
  unfolding Targets assign_transition
  assign_transition-Targets name t target [] h k = (h, tt)
  assign_transition-Targets name t target ((n, u, v) ∷ rest) h (k, l) =
      if_Type (Targets P) (eq_bytes n name) _ _ (h, l)
        (k, assign_transition-Targets name t target rest h l)

  ensure_state-Targets :
      (name : Bytes) (ss : States) → StatesTargets P ss → StatesTargets P (ensure_state name ss)
  unfolding StatesTargets Targets ensure_state
  ensure_state-Targets name [] h = (tt, tt)
  ensure_state-Targets name ((n, s) ∷ rest) (h, k) =
      if_Type (StatesTargets P) (eq_bytes n name) _ _ (h, k) (h, ensure_state-Targets name rest k)

  assign_in_state-Targets :
      (when name : Bytes) (t : Transition) (target : Bytes) (ss : States)
      → P target
      → StatesTargets P ss
      → StatesTargets P (assign_in_state when name t target ss)
  unfolding StatesTargets assign_in_state
  assign_in_state-Targets when name t target [] h k = tt
  assign_in_state-Targets when name t target ((n, s) ∷ rest) h (k, l) =
      if_Type (StatesTargets P) (eq_bytes n when) _ _
        (assign_transition-Targets name t target s.transitions h k, l)
        (k, assign_in_state-Targets when name t target rest h l)

assemble_message-Closed :
    (name : Bytes) (message : Message) (o : Option Transition) (ss : States)
    → Closed ss
    → Closed (assemble_message name message o ss)
unfolding assemble_message
assemble_message-Closed name message none ss h = h
assemble_message-Closed name message (some t) ss h =
    let when = identifier_name message.when in
    let target = identifier_name message.then_state in
    let created = ensure_state target (ensure_state when ss) in
    let after = assign_in_state when name t target created in
    let kept =
      StatesTargets-mono (λ n. declares n ss ≡ true) (λ n. declares n after ≡ true) ss
        (λ n d.
          assign_in_state-declares n when name t target created
          ∙ declares-ensure_more n target (ensure_state when ss) (declares-ensure_more n when ss d))
        h in
    assign_in_state-Targets (λ n. declares n after ≡ true) when name t target created
      (assign_in_state-declares target when name t target created
        ∙ declares-ensure target (ensure_state when ss))
      (ensure_state-Targets _ target (ensure_state when ss) (ensure_state-Targets _ when ss kept))

assemble-Closed :
    (p : ProtocolDescription) (ts : Transitions) (ss : States)
    → Closed ss
    → Closed (assemble p ts ss)
unfolding assemble
assemble-Closed [] ts ss h = h
assemble-Closed ((name, message) ∷ rest) ts ss h =
    assemble-Closed rest ts _ (assemble_message-Closed name message (transition_named name ts) ss h)

agent_of-Closed :
    (p : ProtocolDescription) (o : Option Transitions) (a : Agent)
    → agent_of p o ≡ some a
    → Closed a.states
unfolding agent_of StatesTargets
agent_of-Closed p none a e = cc
agent_of-Closed p (some ts) a e =
    subst (λ (b : Agent). Closed b.states) (some-injective e) (assemble-Closed p ts [] tt)

-- In an analyzed agent each transition leads to a state of that agent.
pub analyze_agent-Closed :
    (p : ProtocolDescription) (name : Bytes) (a : Agent)
    → analyze_agent p name ≡ some a
    → Closed a.states
unfolding analyze_agent
analyze_agent-Closed p name a e = agent_of-Closed p (analyze_transitions name p) a e
