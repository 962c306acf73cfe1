-- ===== src/Io/TerminateList.antt =====
-- operation/terminatelistifreadahead.cpp
use building_programming_lan.Prelude.{
  ℕ, ◌≡◌, ◌≢◌, ◌↔◌, Bool, true, false, ◌&&◌, length, take, arith, ltb, leb, ◌==◌, if◌then◌else◌,
}
use building_programming_lan.Bytes.{Bytes, eq_bytes}
use building_programming_lan.Value.{
  OperationResult, value, blocked, bool, control_flow, interrupt_generator,
}
use building_programming_lan.Io.Context.{IoContext, mismatch, need_read}

unfoldable pub execute : Bytes → IoContext → OperationResult
unfolding eq_bytes
execute terminator ctx =
    if length ctx.buffer == 0
    then (if ctx.eof then mismatch else need_read)
    else if ltb (length ctx.buffer) (length terminator)
    then (if eq_bytes ctx.buffer (take (length ctx.buffer) terminator)
        then (if ctx.eof then mismatch else need_read)
        else value (bool false))
    else if eq_bytes (take (length terminator) ctx.buffer) terminator
    then value (control_flow interrupt_generator)
    else value (bool false)

unfoldable pub handle_read : Bytes → IoContext → Bytes → IoContext × ℕ
unfolding eq_bytes
handle_read terminator ctx input = (
  record ctx { buffer = input },
  if leb (length terminator) (length input) && eq_bytes (take (length terminator) input) terminator
      then length terminator
      else 0,
)

unfoldable pub ready_to_evaluate : Bytes → IoContext → Bool
unfolding eq_bytes
ready_to_evaluate terminator ctx =
    if length ctx.buffer == 0
    then ctx.eof
    else if ltb (length ctx.buffer) (length terminator)
    then (if eq_bytes ctx.buffer (take (length ctx.buffer) terminator) then ctx.eof else true)
    else true

-- The operation is ready exactly when it would not block.
pub ready-execute :
    (terminator : Bytes) (ctx : IoContext)
    → (ready_to_evaluate terminator ctx ≡ true) ↔ (execute terminator ctx ≢ need_read)
unfolding ready_to_evaluate execute
ready-execute terminator ctx = ground arith

-- With a terminator that is not empty, TerminateListIfReadAhead consumes the whole terminator
-- from the input if it then interrupts the generator, and nothing if it does not.
pub consumed-execute :
    (terminator input : Bytes) (ctx : IoContext)
    → length terminator ≢ 0
    → let r = handle_read terminator ctx input in
      r.1 ≡ (elim (execute terminator r.0) [
        | value v ↦ (elim v [ control_flow c ↦ length terminator | _ ↦ 0 ])
        | blocked b ↦ 0
      ])
unfolding handle_read execute
consumed-execute terminator input ctx h = ground arith
