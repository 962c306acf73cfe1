-- ===== src/Sema/Analyze/Opposite.antt =====
-- sema/analyze.cpp: the client against the server of one protocol.
use building_programming_lan.Prelude.{
  ◌≡◌, refl, subst, ap, Option, none, some, List, [], ◌∷◌, some-injective,
}
use building_programming_lan.Bytes.{Bytes, eq_bytes}
use building_programming_lan.Syntax.{identifier_name, Message, ProtocolDescription}
use building_programming_lan.Sema.{Transition, Agent}
use building_programming_lan.Sema.Analyze.{
  Transitions, analyze_transitions, transition_named, States, ensure_state, assign_transition,
  assign_in_state, assemble_message, assemble, agent_of, analyze_agent, client_name, server_name,
}
use building_programming_lan.Sema.Analyze.Messages.{
  Opposed, OpposedTransitions, OpposedStates, WellFormed, OpposedNamed, OpposedOption, if_related,
  transitions-Opposed,
}

named-Opposed :
    (name : Bytes) (ts us : Transitions)
    → OpposedNamed ts us
    → OpposedOption (transition_named name ts) (transition_named name us)
unfolding OpposedNamed OpposedOption transition_named
named-Opposed name [] [] h = tt
named-Opposed name [] (u ∷ us) h = absurd h
named-Opposed name (t ∷ ts) [] h = absurd h
named-Opposed name ((n, t) ∷ ts) ((m, u) ∷ us) (e, h, k) =
    if_related OpposedOption (eq_bytes n name) (eq_bytes m name) _ _ _ _
      (ap (λ (x : Bytes). eq_bytes x name) e) h (named-Opposed name ts us k)

ensure-Opposed :
    (name : Bytes) (ss rs : States)
    → OpposedStates ss rs
    → OpposedStates (ensure_state name ss) (ensure_state name rs)
unfolding OpposedStates OpposedTransitions ensure_state
ensure-Opposed name [] [] h = (refl, tt, tt)
ensure-Opposed name [] (r ∷ rs) h = absurd h
ensure-Opposed name (s ∷ ss) [] h = absurd h
ensure-Opposed name ((n, s) ∷ ss) ((m, r) ∷ rs) (e, h, k) =
    if_related OpposedStates (eq_bytes n name) (eq_bytes m name) _ _ _ _
      (ap (λ (x : Bytes). eq_bytes x name) e) (e, h, k) (e, h, ensure-Opposed name ss rs k)

assign-Opposed :
    (name : Bytes) (t u : Transition) (target : Bytes) (ts us : List (Bytes × Transition × Bytes))
    → Opposed t u
    → OpposedTransitions ts us
    → OpposedTransitions (assign_transition name t target ts) (assign_transition name u target us)
unfolding OpposedTransitions assign_transition
assign-Opposed name t u target [] [] o h = (refl, o, refl, tt)
assign-Opposed name t u target [] (y ∷ us) o h = absurd h
assign-Opposed name t u target (x ∷ ts) [] o h = absurd h
assign-Opposed name t u target ((n, x, v) ∷ ts) ((m, y, w) ∷ us) o (e, h, f, k) =
    if_related OpposedTransitions (eq_bytes n name) (eq_bytes m name) _ _ _ _
      (ap (λ (z : Bytes). eq_bytes z name) e) (e, o, refl, k)
      (e, h, f, assign-Opposed name t u target ts us o k)

assign_in_state-Opposed :
    (when name : Bytes) (t u : Transition) (target : Bytes) (ss rs : States)
    → Opposed t u
    → OpposedStates ss rs
    → OpposedStates (assign_in_state when name t target ss) (assign_in_state when name u target rs)
unfolding OpposedStates assign_in_state
assign_in_state-Opposed when name t u target [] [] o h = tt
assign_in_state-Opposed when name t u target [] (r ∷ rs) o h = absurd h
assign_in_state-Opposed when name t u target (s ∷ ss) [] o h = absurd h
assign_in_state-Opposed when name t u target ((n, s) ∷ ss) ((m, r) ∷ rs) o (e, h, k) =
    if_related OpposedStates (eq_bytes n when) (eq_bytes m when) _ _ _ _
      (ap (λ (z : Bytes). eq_bytes z when) e)
      (e, assign-Opposed name t u target s.transitions r.transitions o h, k)
      (e, h, assign_in_state-Opposed when name t u target ss rs o k)

message_assembled :
    (name : Bytes) (message : Message) (o p : Option Transition) (ss rs : States)
    → OpposedOption o p
    → OpposedStates ss rs
    → OpposedStates (assemble_message name message o ss) (assemble_message name message p rs)
unfolding assemble_message OpposedOption
message_assembled name message none none ss rs o h = h
message_assembled name message none (some u) ss rs o h = absurd o
message_assembled name message (some t) none ss rs o h = absurd o
message_assembled name message (some t) (some u) ss rs o h =
    assign_in_state-Opposed (identifier_name message.when) name t u _ _ _ o (
      ensure-Opposed (identifier_name message.then_state) _ _
        (ensure-Opposed (identifier_name message.when) ss rs h))

assemble-Opposed :
    (p : ProtocolDescription) (ts us : Transitions) (ss rs : States)
    → OpposedNamed ts us
    → OpposedStates ss rs
    → OpposedStates (assemble p ts ss) (assemble p us rs)
unfolding assemble
assemble-Opposed [] ts us ss rs o h = h
assemble-Opposed ((name, message) ∷ rest) ts us ss rs o h =
    assemble-Opposed rest ts us _ _ o
      (message_assembled name message _ _ ss rs (named-Opposed name ts us o) h)

agents-Opposed :
    (p : ProtocolDescription) (o q : Option Transitions) (a b : Agent)
    → ((ts us : Transitions) → o ≡ some ts → q ≡ some us → OpposedNamed ts us)
    → agent_of p o ≡ some a
    → agent_of p q ≡ some b
    → OpposedStates a.states b.states
unfolding agent_of OpposedStates
agents-Opposed p none q a b f h k = cc
agents-Opposed p (some ts) none a b f h k = cc
agents-Opposed p (some ts) (some us) a b f h k =
    subst (λ (x : Agent). OpposedStates x.states b.states) (some-injective h)
      (subst (λ (y : Agent). OpposedStates (assemble p ts []) y.states) (some-injective k)
        (assemble-Opposed p ts us [] [] (f ts us refl refl) tt))

-- Where each message names the client or the server and has no empty token sequence, the two
-- analyzed agents have the same states with the same transitions to the same targets, and of each
-- transition one side writes and the other reads, with the same data and mirrored actions.
pub analyze-Opposed :
    (p : ProtocolDescription) (client server : Agent)
    → WellFormed p
    → analyze_agent p client_name ≡ some client
    → analyze_agent p server_name ≡ some server
    → OpposedStates client.states server.states
unfolding analyze_agent
analyze-Opposed p client server w h k =
    agents-Opposed p (analyze_transitions client_name p) (analyze_transitions server_name p) client
      server (λ ts us. transitions-Opposed p ts us w) h k
