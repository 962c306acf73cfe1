-- ===== src/Sema.antt =====
-- sema/ast: the agents of an analyzed protocol, with their states, transitions and actions.
pub mod Parts
pub mod Analyze
use building_programming_lan.Prelude.{Option, List}
use building_programming_lan.Bytes.{Bytes}
use building_programming_lan.Syntax.{IdentifierReference, MessageData}

pub record EscapeInfo : Type 0 where
  pub character : Bytes
  pub sequence : Bytes

-- The alternatives of `Action`, in the namespace `action`; `Actions` is a vector of them.
mutual
  pub data Action : Type 0 where
    action_read_static_octets : Bytes → Action
    action_read_octets_until_terminator : Bytes → IdentifierReference → Option EscapeInfo → Action
    action_write_from_identifier : IdentifierReference → Option EscapeInfo → Action
    action_write_static_octets : Bytes → Action
    action_loop : IdentifierReference → IdentifierReference → Bytes → Actions → Action

  pub data Actions : Type 0 where
    no_action : Actions
    action : Action → Actions → Actions

pub record AbstractTransition : Type 0 where
  pub data_fields : Option MessageData
  pub actions : Actions

pub data Transition : Type 0 where
  read_transition : AbstractTransition → Transition
  write_transition : AbstractTransition → Transition

-- The transitions by the name of the message, each with the name of its target state.
pub record State : Type 0 where
  pub transitions : List (Bytes × Transition × Bytes)

pub record Agent : Type 0 where
  pub states : List (Bytes × State)

pub record Protocol : Type 0 where
  pub client : Option Agent
  pub server : Option Agent
