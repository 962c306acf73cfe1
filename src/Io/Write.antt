-- ===== src/Io/Write.antt =====
-- operation/{writestaticoctets, writeoctets, writeoctetswithescape, writeint32native}.cpp. The four
-- fill the buffer once, hand it out from the iterator on, and return 0 when it has been taken.
pub mod Escape
pub mod Drain
use building_programming_lan.Prelude.{
  ℕ, zero, suc, ◌+◌, ◌-◌, ◌*◌, ◌/◌, ◌%◌, Bool, true, false, List, [], ◌∷◌, ◌++◌, length, drop, ◌==◌,
  if◌then◌else◌,
}
use building_programming_lan.Prelude.Int.{ℤ, pos, negsuc}
use building_programming_lan.Bytes.{Bytes}
use building_programming_lan.Outcome.{
  Outcome, ok, fault, bad_variant_access, null_dereference, ◌>>=◌,
}
use building_programming_lan.Value.{
  Value, int32, runtime_error, control_flow, octets, type_error, OperationResult, value, blocked,
  waiting_for_write,
}
use building_programming_lan.Io.Context.{IoContext, mismatch}
use building_programming_lan.Io.Write.Escape.{apply_escape_replacement}

-- The common end: block while bytes are left, unless the other side is gone.
unfoldable pub finish : IoContext → OperationResult
finish ctx =
    if ctx.it == length ctx.buffer
    then value (int32 (pos 0))
    else if ctx.eof
    then mismatch
    else blocked waiting_for_write

-- `if (ctx.buffer.length() == 0) { ctx.buffer = contents; ctx.it = ctx.buffer.begin(); }`
unfoldable pub fill : Bytes → IoContext → IoContext
fill contents ctx =
    if length ctx.buffer == 0 then record ctx { buffer = contents; it = 0; it_set = true } else ctx

-- WriteStaticOctets::operator()
unfoldable pub write_static_octets : Bytes → IoContext → OperationResult × IoContext
unfolding finish fill
write_static_octets contents ctx = (finish (fill contents ctx), fill contents ctx)

-- WriteOctets: _execute_operation on octets, and the overloads for the other alternatives.
unfoldable pub write_octets : Value → IoContext → OperationResult × IoContext
unfolding finish fill
write_octets (octets o) ctx =
    if length o == 0 then (value (int32 (pos 0)), ctx) else (finish (fill o ctx), fill o ctx)
write_octets (runtime_error e) ctx = (value (runtime_error e), ctx)
write_octets (control_flow c) ctx = (value (control_flow c), ctx)
write_octets v ctx = (value (runtime_error type_error), ctx)

-- WriteOctetsWithEscape: the replacement is made when the buffer is filled.
unfoldable pub write_octets_with_escape :
    Bytes → Bytes → Value → IoContext → Outcome (OperationResult × IoContext)
unfolding finish fill apply_escape_replacement
write_octets_with_escape char seq (octets o) ctx =
    if length o == 0
    then ok (value (int32 (pos 0)), ctx)
    else if length ctx.buffer == 0
    then (do e ← apply_escape_replacement o char seq; ok (finish (fill e ctx), fill e ctx))
    else ok (finish ctx, ctx)
write_octets_with_escape char seq (runtime_error e) ctx = ok (value (runtime_error e), ctx)
write_octets_with_escape char seq (control_flow c) ctx = ok (value (control_flow c), ctx)
write_octets_with_escape char seq v ctx = ok (value (runtime_error type_error), ctx)

-- The unsigned value of a 32-bit pattern in two's complement.
unfoldable pub to_word : ℤ → ℕ
to_word (pos n) = n
to_word (negsuc n) = 4294967295 - n

-- `std::memcpy(b, &v, 4)` on a little-endian machine.
unfoldable pub int32_bytes : ℤ → Bytes
unfolding to_word
int32_bytes v =
    let w = to_word v in w % 256 ∷ w / 256 % 256 ∷ w / 65536 % 256 ∷ w / 16777216 % 256 ∷ []

-- WriteInt32Native::operator(); `std::get<int32_t>` throws on any other alternative.
unfoldable pub write_int32_native : Value → IoContext → Outcome (OperationResult × IoContext)
unfolding finish fill int32_bytes
write_int32_native (int32 v) ctx = ok (finish (fill (int32_bytes v) ctx), fill (int32_bytes v) ctx)
write_int32_native v ctx =
    if length ctx.buffer == 0 then fault bad_variant_access else ok (finish ctx, ctx)

-- `get_write_buffer`: what the iterator has not passed. A singular iterator is undefined behaviour here.
unfoldable pub get_write_buffer : IoContext → Outcome Bytes
get_write_buffer ctx = if ctx.it_set then ok (drop ctx.it ctx.buffer) else fault null_dereference

-- The loop of `handle_write`, which counts what it consumes while the iterator moves.
unfoldable pub advance : ℕ → IoContext → ℕ → IoContext × ℕ
advance zero ctx consumed = (ctx, consumed)
advance (suc s) ctx consumed =
    let more = advance s (record ctx { it = suc ctx.it }) (suc consumed) in
    if ctx.it == length ctx.buffer then (ctx, consumed) else more

-- The iterator is not looked at where nothing is to be consumed.
unfoldable pub handle_write : IoContext → ℕ → Outcome (IoContext × ℕ)
unfolding advance
handle_write ctx zero = ok (ctx, 0)
handle_write ctx (suc s) = if ctx.it_set then ok (advance (suc s) ctx 0) else fault null_dereference
