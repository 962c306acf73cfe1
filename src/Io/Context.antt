-- ===== src/Io/Context.antt =====
-- InputOutputOperationContext of operationconcepts.hpp, and the bodies that several operations
-- share. The iterator `it` is the offset that it stands at; `it_set` is false for as long as it is
-- singular, as value-initialization leaves it.
use building_programming_lan.Prelude.{ℕ, Bool, true, false, []}
use building_programming_lan.Bytes.{Bytes}
use building_programming_lan.Value.{
  OperationResult, value, blocked, runtime_error, protocol_mismatch_error, waiting_for_read,
}

pub record IoContext : Type 0 where
  pub buffer : Bytes
  pub it : ℕ
  pub it_set : Bool
  pub ready : Bool
  pub eof : Bool

-- `InputOutputOperationContext()`, which value-initialization fills with zeros.
abbrev pub new_io : IoContext
new_io = record { buffer = []; it = 0; it_set = false; ready = false; eof = false }

-- `handle_eof`, the same in every operation.
unfoldable pub handle_eof : IoContext → IoContext
handle_eof ctx = record ctx { eof = true }

-- A mismatch at the end of the input, and a request for more before it.
abbrev pub mismatch : OperationResult
mismatch = value (runtime_error protocol_mismatch_error)

abbrev pub need_read : OperationResult
need_read = blocked waiting_for_read
