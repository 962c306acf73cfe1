-- ===== src/Sema/Analyze/Messages.antt =====
-- sema/analyze.cpp: the transition of a message for the client and for the server.
use building_programming_lan.Prelude.{
  ◌≡◌, refl, subst, sym, ap, ◌∙◌, ◌⊎◌, inl, inr, Bool, true, false, Option, none, some, List, [],
  ◌∷◌, if◌then◌else◌, if_true, if_false, some-injective,
}
use building_programming_lan.Bytes.{Bytes, eq_bytes, eq_bytes_refl}
use building_programming_lan.Syntax.{identifier_name, Message, ProtocolDescription}
use building_programming_lan.Sema.{
  AbstractTransition, Transition, read_transition, write_transition, Actions,
}
use building_programming_lan.Sema.Parts.Write.{parts_to_write_actions}
use building_programming_lan.Sema.Parts.Read.{parts_to_read_actions}
use building_programming_lan.Sema.Parts.Unread.{unread}
use building_programming_lan.Sema.Parts.Mirror.{Filled, write-read_actions}
use building_programming_lan.Sema.Analyze.{
  message_transition, analyze_write_message, analyze_read_message, analyze_message, Transitions,
  add_transition, analyze_transitions, States, client_name, server_name,
}

-- One side writes the data that the other reads, by mirrored actions.
abbrev pub Writes : AbstractTransition → AbstractTransition → Type 0
Writes w r = (w.data_fields ≡ r.data_fields) × (w.actions ≡ unread r.actions)

abbrev pub Opposed : Transition → Transition → Type 0
Opposed (write_transition w) (read_transition r) = Writes w r
Opposed (read_transition r) (write_transition w) = Writes w r
Opposed _ _ = ⊥

unfoldable pub OpposedTransitions :
    List (Bytes × Transition × Bytes) → List (Bytes × Transition × Bytes) → Type 0
OpposedTransitions [] [] = Unit {0}
OpposedTransitions ((n, t, v) ∷ ts) ((m, u, w) ∷ us) =
    (n ≡ m) × Opposed t u × (v ≡ w) × OpposedTransitions ts us
OpposedTransitions _ _ = ⊥

unfoldable pub OpposedStates : States → States → Type 0
OpposedStates [] [] = Unit {0}
OpposedStates ((n, s) ∷ ss) ((m, r) ∷ rs) =
    (n ≡ m) × OpposedTransitions s.transitions r.transitions × OpposedStates ss rs
OpposedStates _ _ = ⊥

-- The messages name one of the two agents, and have no empty token sequence.
unfoldable pub WellFormed : ProtocolDescription → Type 0
WellFormed [] = Unit {0}
WellFormed ((name, message) ∷ rest) =
    ((identifier_name message.agent ≡ client_name) ⊎ (identifier_name message.agent ≡ server_name))
    × Filled message.parts
    × WellFormed rest

unfoldable pub OpposedNamed : Transitions → Transitions → Type 0
OpposedNamed [] [] = Unit {0}
OpposedNamed ((n, t) ∷ ts) ((m, u) ∷ us) = (n ≡ m) × Opposed t u × OpposedNamed ts us
OpposedNamed _ _ = ⊥

unfoldable pub OpposedOption : Option Transition → Option Transition → Type 0
OpposedOption none none = Unit {0}
OpposedOption (some t) (some u) = Opposed t u
OpposedOption _ _ = ⊥

pub if_related :
    {A : Type 0} (R : A → A → Type 0) (b c : Bool) (x y z w : A)
    → b ≡ c
    → R x z
    → R y w
    → R (if b then x else y) (if c then z else w)
if_related R true true x y z w e h k = h
if_related R false false x y z w e h k = k
if_related R true false x y z w e h k = cc
if_related R false true x y z w e h k = cc

-- A message that is written and read.
both-Writes :
    (message : Message) (w r : Option Actions) (t u : Transition)
    → ((xs : Actions) → r ≡ some xs → w ≡ some (unread xs))
    → message_transition write_transition message w ≡ some t
    → message_transition read_transition message r ≡ some u
    → Opposed t u × Opposed u t
unfolding message_transition
both-Writes message none r t u f h k = cc
both-Writes message (some ws) none t u f h k = cc
both-Writes message (some ws) (some rs) t u f h k =
    let w = write_transition (record { data_fields = message.data_fields; actions = ws }) in
    let r = read_transition (record { data_fields = message.data_fields; actions = rs }) in
    let e = some-injective (f rs refl) in
    subst (λ (x : Transition). Opposed x u × Opposed u x) (some-injective h)
      (subst (λ (y : Transition). Opposed w y × Opposed y w) (some-injective k)
        ((refl, e), (refl, e)))

-- The agent that a message names, and another one.
written_by :
    (message : Message) (name : Bytes)
    → identifier_name message.agent ≡ name
    → analyze_message name message ≡ analyze_write_message message
unfolding analyze_message
written_by message name e =
    if_true (analyze_write_message message) (analyze_read_message message)
      (ap (λ (x : Bytes). eq_bytes x name) e ∙ eq_bytes_refl name)

read_by :
    (message : Message) (name other : Bytes)
    → identifier_name message.agent ≡ name
    → eq_bytes name other ≡ false
    → analyze_message other message ≡ analyze_read_message message
unfolding analyze_message
read_by message name other e d =
    if_false (analyze_write_message message) (analyze_read_message message)
      (ap (λ (x : Bytes). eq_bytes x other) e ∙ d)

message-Opposed :
    (message : Message) (t u : Transition)
    → (identifier_name message.agent ≡ client_name) ⊎ (identifier_name message.agent ≡ server_name)
    → Filled message.parts
    → analyze_message client_name message ≡ some t
    → analyze_message server_name message ≡ some u
    → Opposed t u
unfolding analyze_write_message analyze_read_message eq_bytes
message-Opposed message t u (inl a) f h k =
    (both-Writes message (parts_to_write_actions message.parts)
      (parts_to_read_actions message.parts) t u (λ xs e. write-read_actions message.parts xs f e)
      (sym (written_by message client_name a) ∙ h)
      (sym (read_by message client_name server_name a refl) ∙ k)).0
message-Opposed message t u (inr a) f h k =
    (both-Writes message (parts_to_write_actions message.parts)
      (parts_to_read_actions message.parts) u t (λ xs e. write-read_actions message.parts xs f e)
      (sym (written_by message server_name a) ∙ k)
      (sym (read_by message server_name client_name a refl) ∙ h)).1

add-parts :
    (name : Bytes) (o : Option Transition) (p : Option Transitions) (ts : Transitions)
    → add_transition name o p ≡ some ts
    → (t : Transition) × (rest : Transitions) × (o ≡ some t)
      × (p ≡ some rest)
      × (((name, t) ∷ rest) ≡ ts)
unfolding add_transition
add-parts name none p ts e = cc
add-parts name (some t) none ts e = cc
add-parts name (some t) (some rest) ts e = (t, rest, refl, refl, some-injective e)

pub transitions-Opposed :
    (p : ProtocolDescription) (ts us : Transitions)
    → WellFormed p
    → analyze_transitions client_name p ≡ some ts
    → analyze_transitions server_name p ≡ some us
    → OpposedNamed ts us
unfolding analyze_transitions WellFormed OpposedNamed
transitions-Opposed [] ts us w h k =
    subst (λ (x : Transitions). OpposedNamed x us) (some-injective h)
      (subst (λ (y : Transitions). OpposedNamed [] y) (some-injective k) tt)
transitions-Opposed ((name, message) ∷ rest) ts us (a, f, w) h k =
    let (t, ts', ht, hr, he) = add-parts name _ _ ts h in
    let (u, us', kt, kr, ke) = add-parts name _ _ us k in
    subst (λ (x : Transitions). OpposedNamed x us) he
      (subst (λ (y : Transitions). OpposedNamed ((name, t) ∷ ts') y) ke
        (refl, message-Opposed message t u a f ht kt, transitions-Opposed rest ts' us' w hr kr))
