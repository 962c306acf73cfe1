-- ===== src/Program.antt =====
-- interpretedprogram.cpp and interpretedprogram.hpp: from the text of a protocol to a program and to an
-- interpreter of it.
use building_programming_lan.Prelude.{
  ◌≡◌, refl, subst, sym, ap, inl, inr, ◌⊎◌, Option, none, some, length, some-injective,
}
use building_programming_lan.Bytes.{Bytes, codes}
use building_programming_lan.Outcome.{
  Outcome, ok, ◌>>?◌, found_parts, found-injective, ok-injective,
}
use building_programming_lan.Value.{OpTree, optree, StateMap, state_machine, Value}
use building_programming_lan.Pad.{PadStore, make_pad, initialize_global}
use building_programming_lan.Interpreter.{Interpreter, new_interpreter}
use building_programming_lan.Control.{StatePair, TransitionPair}
use building_programming_lan.Control.Machine.{find_state, find_transition}
use building_programming_lan.Syntax.{ProtocolDescription}
use building_programming_lan.Sema.{Agent, Protocol}
use building_programming_lan.Sema.Analyze.{
  analyze, analyze_agent, both_agents, client_name, server_name,
}
use building_programming_lan.Parser.Protocol.{parse}
use building_programming_lan.Lexer.{Lexed, tokenize}
use building_programming_lan.Generate.{node_0}
use building_programming_lan.Generate.States.{construct_state_map, machine, client, server}
use building_programming_lan.Generate.Supplied.{SuppliedTree}
use building_programming_lan.Generate.Supplied.Machine.{generated-Supplied}
use building_programming_lan.Generate.Analyzed.{target_found}

-- `parse_protocol_from_source`
unfoldable pub parse_protocol_from_source : (Bytes → Lexed) → Bytes → Outcome (Option Protocol)
unfolding tokenize parse analyze
parse_protocol_from_source lookup source =
    tokenize lookup source >>? λ tokens. ok (parse tokens) >>? λ p. ok (analyze p)

-- `generate_client_from_source` and `generate_server_from_source`
unfoldable pub generate_client_from_source : (Bytes → Lexed) → Bytes → Outcome (Option OpTree)
unfolding parse_protocol_from_source client
generate_client_from_source lookup source =
    parse_protocol_from_source lookup source >>? λ p. client (some p)

unfoldable pub generate_server_from_source : (Bytes → Lexed) → Bytes → Outcome (Option OpTree)
unfolding parse_protocol_from_source server
generate_server_from_source lookup source =
    parse_protocol_from_source lookup source >>? λ p. server (some p)

-- `get_instance`: a new root pad, with the arguments, and an interpreter on it.
unfoldable pub get_instance : OpTree → Option Value → PadStore → Interpreter × PadStore
unfolding new_interpreter make_pad initialize_global
get_instance tree arglist pads = (
  new_interpreter tree (length pads),
  elim arglist [
    | none ↦ make_pad pads none
    | some v ↦ initialize_global (make_pad pads none) (length pads) (codes "argv") v
  ],
)

agents :
    (a b : Option Agent) (q : Protocol)
    → both_agents a b ≡ some q
    → (x : Agent) × (y : Agent) × (a ≡ some x)
      × (b ≡ some y)
      × (q.client ≡ some x)
      × (q.server ≡ some y)
unfolding both_agents
agents (some x) (some y) q e = (
  x,
  y,
  refl,
  refl,
  sym (ap (λ (r : Protocol). r.client) (some-injective e)),
  sym (ap (λ (r : Protocol). r.server) (some-injective e)),
)
agents (some x) none q e = cc
agents none b q e = cc

machine_parts :
    (o : Option Agent) (a : Agent) (tree : OpTree)
    → o ≡ some a
    → machine o ≡ ok (some tree)
    → (m : StateMap) × (construct_state_map a.states ≡ ok (some m))
      × (optree (node_0 (state_machine m)) ≡ tree)
unfolding machine
machine_parts none a tree e h = cc
machine_parts (some b) a tree e h =
    let (m, c, d) = found_parts (construct_state_map b.states) _ h in
    (
      m,
      subst (λ (x : Agent). construct_state_map x.states ≡ ok (some m)) (some-injective e) c,
      found-injective d,
    )

machine-injective :
    (m n : StateMap) → optree (node_0 (state_machine m)) ≡ optree (node_0 (state_machine n)) → m ≡ n
machine-injective m n e = cc

-- The agent of a generated program, with its state machine.
analyzed_machine :
    (p : ProtocolDescription) (q : Protocol) (m : StateMap)
    → analyze p ≡ some q
    → (client (some q) ≡ ok (some (optree (node_0 (state_machine m)))))
      ⊎ (server (some q) ≡ ok (some (optree (node_0 (state_machine m)))))
    → (name : Bytes) × (a : Agent) × (analyze_agent p name ≡ some a)
      × (construct_state_map a.states ≡ ok (some m))
unfolding analyze client server
analyzed_machine p q m e (inl h) =
    let (x, y, ex, ey, cx, cy) = agents _ _ q e in
    let (m', c, d) = machine_parts q.client x _ cx h in
    (
      client_name,
      x,
      ex,
      subst (λ (n : StateMap). construct_state_map x.states ≡ ok (some n))
          (machine-injective m' m d) c,
    )
analyzed_machine p q m e (inr h) =
    let (x, y, ex, ey, cx, cy) = agents _ _ q e in
    let (m', c, d) = machine_parts q.server y _ cy h in
    (
      server_name,
      y,
      ey,
      subst (λ (n : StateMap). construct_state_map y.states ≡ ok (some n))
          (machine-injective m' m d) c,
    )

source_parts :
    (lookup : Bytes → Lexed) (source : Bytes) (q : Protocol)
    → parse_protocol_from_source lookup source ≡ ok (some q)
    → (p : ProtocolDescription) × (analyze p ≡ some q)
unfolding parse_protocol_from_source
source_parts lookup source q e =
    let (tokens, a, b) = found_parts (tokenize lookup source) _ e in
    let (p, c, d) = found_parts (ok (parse tokens)) _ b in (p, ok-injective d)

-- The protocol of a generated program.
program_parts :
    (lookup : Bytes → Lexed) (source : Bytes) (tree : OpTree)
    → (generate_client_from_source lookup source ≡ ok (some tree))
      ⊎ (generate_server_from_source lookup source ≡ ok (some tree))
    → (p : ProtocolDescription) × (q : Protocol) × (analyze p ≡ some q)
      × ((client (some q) ≡ ok (some tree)) ⊎ (server (some q) ≡ ok (some tree)))
unfolding generate_client_from_source generate_server_from_source
program_parts lookup source tree (inl e) =
    let (q, a, b) = found_parts (parse_protocol_from_source lookup source) _ e in
    let (p, c) = source_parts lookup source q a in (p, q, c, inl b)
program_parts lookup source tree (inr e) =
    let (q, a, b) = found_parts (parse_protocol_from_source lookup source) _ e in
    let (p, c) = source_parts lookup source q a in (p, q, c, inr b)

-- In a program that is generated from any text, each operation has the children that it takes its
-- arguments from, and each transition that a state of its state machine offers leads to a state that
-- the machine finds.
pub program_target_found :
    (lookup : Bytes → Lexed) (source : Bytes) (m : StateMap) (name t : Bytes) (s : StatePair)
    (offered : TransitionPair)
    → (generate_client_from_source lookup source ≡ ok (some (optree (node_0 (state_machine m)))))
      ⊎ (generate_server_from_source lookup source ≡ ok (some (optree (node_0 (state_machine m)))))
    → find_state name m ≡ some s
    → find_transition t s.transitions ≡ some offered
    → SuppliedTree (optree (node_0 (state_machine m)))
      × (target : StatePair) × (find_state offered.target_state m ≡ some target)
program_target_found lookup source m name t s offered g e f =
    let (p, q, h, k) = program_parts lookup source (optree (node_0 (state_machine m))) g in
    let (agent, a, i, j) = analyzed_machine p q m h k in
    let found = target_found p agent a m name t s offered i j e f in
    (generated-Supplied (some q) _ k, found.0, found.1)
