-- ===== src/Codegen/Unique.antt =====
-- codegen/protocolinfo.cpp: which messages are collected, and how often.
use building_programming_lan.Prelude.{
  ℕ, ◌+◌, ◌≡◌, refl, ap, sym, ◌∙◌, subst, Bool, true, false, Option, none, some, List, [], ◌∷◌,
  ◌++◌, if◌then◌else◌, Bool-cases, inl, inr, arith, if_true, if_false,
}
use building_programming_lan.Bytes.{Bytes, codes, eq_bytes, eq_bytes_iff}
use building_programming_lan.Sema.{State, Agent, Protocol}
use building_programming_lan.Codegen.{CharacterClasses}
use building_programming_lan.Codegen.Info.{
  MessageInfo, seen, Transitions, with_agent, Collected, push_new, message_info,
  collect_state_messages, collect_agent_messages, collect_messages,
}

-- How often a message of the name was collected.
unfoldable pub times : Bytes → List MessageInfo → ℕ
unfolding eq_bytes
times n [] = 0
times n (m ∷ rest) = (if eq_bytes n m.name then 1 else 0) + times n rest

-- Whether an agent has a transition of the name.
unfoldable pub in_transitions : Bytes → Transitions → Bool
unfolding eq_bytes
in_transitions n [] = false
in_transitions n (t ∷ rest) = if eq_bytes n t.0 then true else in_transitions n rest

unfoldable pub in_states : Bytes → List (Bytes × State) → Bool
unfolding in_transitions
in_states n [] = false
in_states n ((name, s) ∷ rest) = if in_transitions n s.transitions then true else in_states n rest

unfoldable pub in_agent : Bytes → Option Agent → Bool
unfolding in_states
in_agent n none = false
in_agent n (some agent) = in_states n agent.states

-- The vector has a name once or not at all, as the set has it.
unfoldable pub Counted : Collected MessageInfo → Type 0
unfolding times seen
Counted c = (n : Bytes) → times n c.1 ≡ (if seen n c.0 then 1 else 0)

-- The set after more names: those that were there, and those that satisfy the test.
unfoldable pub Gains : (Bytes → Bool) → Collected MessageInfo → Collected MessageInfo → Type 0
unfolding seen
Gains test c d = Counted d × ((n : Bytes) → seen n d.0 ≡ (if seen n c.0 then true else test n))

or_assoc :
    (a b c : Bool)
    → (if (if a then true else b) then true else c) ≡ (if a then true else (if b then true else c))
or_assoc true b c = refl
or_assoc false b c = refl

or_comm : (a b : Bool) → (if a then true else b) ≡ (if b then true else a)
or_comm true true = refl
or_comm true false = refl
or_comm false true = refl
or_comm false false = refl

or_false : (a : Bool) → a ≡ (if a then true else false)
or_false true = refl
or_false false = refl

times-append : (n : Bytes) (xs ys : List MessageInfo) → times n (xs ++ ys) ≡ times n xs + times n ys
unfolding times
times-append n [] ys = omega arith
times-append n (m ∷ xs) ys = omega (arith, times-append n xs ys)

-- A name that was seen changes nothing where it is added to the test.
seen_again :
    (n name : Bytes) (names : List Bytes)
    → seen name names ≡ true
    → seen n names ≡ (if seen n names then true else eq_bytes n name)
seen_again n name names e = elim (Bool-cases (eq_bytes n name)) [
  | inl same ↦
      let s = subst (λ m. seen m names ≡ true) (sym ((eq_bytes_iff n name).0 same)) e in
      s ∙ sym (if_true true (eq_bytes n name) s)
  | inr other ↦ or_false (seen n names) ∙ ap (λ b. if seen n names then true else b) (sym other)
]

-- A new name is counted once more.
new_counted :
    (n name : Bytes) (k : ℕ) (names : List Bytes)
    → k ≡ (if seen n names then 1 else 0)
    → seen name names ≡ false
    → k + ((if eq_bytes n name then 1 else 0) + 0)
      ≡ (if (if eq_bytes n name then true else seen n names) then 1 else 0)
new_counted n name k names h fresh = elim (Bool-cases (eq_bytes n name)) [
  | inl same ↦
      let s = subst (λ m. seen m names ≡ false) (sym ((eq_bytes_iff n name).0 same)) fresh in
      ground (arith, h, s, same)
  | inr other ↦ ground (arith, h, other)
]

push_new-Gains :
    (info : MessageInfo) (names : List Bytes) (infos : List MessageInfo)
    → Counted (names, infos)
    → Gains (λ n. eq_bytes n info.name) (names, infos) (push_new info.name info (names, infos))
unfolding push_new Gains Counted times seen
push_new-Gains info names infos h = elim (Bool-cases (seen info.name names)) [
  | inl old ↦
      subst (Gains (λ n. eq_bytes n info.name) (names, infos))
        (sym (if_true (names, infos) (info.name ∷ names, infos ++ info ∷ []) old))
        (h, λ n. seen_again n info.name names old)
  | inr fresh ↦
      subst (Gains (λ n. eq_bytes n info.name) (names, infos))
        (sym (if_false (names, infos) (info.name ∷ names, infos ++ info ∷ []) fresh))
        (
          λ n.
              times-append n infos (info ∷ [])
              ∙ new_counted n info.name (times n infos) names (h n) fresh,
          λ n. or_comm (eq_bytes n info.name) (seen n names),
        )
]

-- One gain after another.
Gains-then :
    (f g : Bytes → Bool) (c d e : Collected MessageInfo)
    → Gains f c d
    → Gains g d e
    → Gains (λ n. if f n then true else g n) c e
unfolding Gains
Gains-then f g c d e (counted, first) (counted_too, second) = (
  counted_too,
  λ n. second n ∙ ap (λ b. if b then true else g n) (first n) ∙ or_assoc (seen n c.0) (f n) (g n),
)

Gains-none : (c : Collected MessageInfo) → Counted c → Gains (λ n. false) c c
unfolding Gains
Gains-none c h = (h, λ n. or_false (seen n c.0))

module _ (classes : CharacterClasses) (agent_name : Bytes) where
  state_messages-Gains :
      (state_name : Bytes) (ts : Transitions) (c : Collected MessageInfo)
      → Counted c
      → Gains
          (λ n. in_transitions n ts)
          c
          (collect_state_messages classes agent_name state_name ts c)
  unfolding collect_state_messages in_transitions message_info Gains
  state_messages-Gains state_name [] c h = Gains-none c h
  state_messages-Gains state_name (t ∷ rest) c h =
      let pushed = push_new-Gains (message_info classes agent_name state_name t) c.0 c.1 h in
      Gains-then (λ n. eq_bytes n t.0) (λ n. in_transitions n rest) c
        (push_new t.0 (message_info classes agent_name state_name t) c)
        (collect_state_messages classes agent_name state_name (t ∷ rest) c) pushed
        (state_messages-Gains state_name rest _ pushed.0)

  agent_messages-Gains :
      (states : List (Bytes × State)) (c : Collected MessageInfo)
      → Counted c
      → Gains (λ n. in_states n states) c (collect_agent_messages classes agent_name states c)
  unfolding collect_agent_messages in_states Gains
  agent_messages-Gains [] c h = Gains-none c h
  agent_messages-Gains ((name, s) ∷ rest) c h =
      let here = state_messages-Gains name s.transitions c h in
      Gains-then (λ n. in_transitions n s.transitions) (λ n. in_states n rest) c
        (collect_state_messages classes agent_name name s.transitions c)
        (collect_agent_messages classes agent_name ((name, s) ∷ rest) c) here
        (agent_messages-Gains rest _ here.0)

  with_agent-Gains :
      (agent : Option Agent) (c : Collected MessageInfo)
      → Counted c
      → Gains
          (λ n. in_agent n agent)
          c
          (with_agent (collect_agent_messages classes agent_name) agent c)
  unfolding with_agent in_agent
  with_agent-Gains none c h = Gains-none c h
  with_agent-Gains (some agent) c h = agent_messages-Gains agent.states c h

module _ (classes : CharacterClasses) where
  -- A name has exactly one entry among the messages where the client or the server has a transition of
  -- that name, and none otherwise.
  pub collect_messages_lem :
      (protocol : Protocol) (n : Bytes)
      → times n (collect_messages classes protocol) ≡ (
          if (if in_agent n protocol.client then true else in_agent n protocol.server)
          then 1
          else 0)
  unfolding collect_messages Gains Counted seen times
  collect_messages_lem protocol n =
      let client = with_agent-Gains classes (codes "Client") protocol.client ([], []) λ m. refl in
      let server = with_agent-Gains classes (codes "Server") protocol.server _ client.0 in
      server.0 n
      ∙ ap (λ b. if b then 1 else 0)
          (server.1 n ∙ ap (λ b. if b then true else in_agent n protocol.server) (client.1 n))
