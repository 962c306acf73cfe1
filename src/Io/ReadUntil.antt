-- ===== src/Io/ReadUntil.antt =====
-- operation/readoctetsuntilterminator.cpp. `in.find(needle, pos)` is a search of the input from
-- `pos` on; the loop carries that rest of the input beside `pos`.
pub mod Plain
pub mod Escaped
pub mod Total
use building_programming_lan.Prelude.{
  ℕ, zero, suc, ◌+◌, Bool, true, false, ◌||◌, Option, none, some, List, [], ◌∷◌, ◌++◌, length, take,
  drop, leb, ◌==◌, if◌then◌else◌,
}
use building_programming_lan.Bytes.{Bytes, find, offset}
use building_programming_lan.Outcome.{Outcome, ok, fault, divergence, ◌>>=◌}
use building_programming_lan.Value.{OperationResult, value, octets}
use building_programming_lan.Io.Context.{IoContext, mismatch, need_read}

unfoldable pub execute : IoContext → OperationResult
execute ctx =
    if ctx.ready then value (octets ctx.buffer) else if ctx.eof then mismatch else need_read

-- What the loop leaves: the buffer, whether the terminator was found, and the bytes consumed.
pub record Scan : Type 0 where
  pub buffer : Bytes
  pub ready : Bool
  pub consumed : ℕ

-- Which of the two comes first: `prefer_escape` of the source.
unfoldable pub prefer_escape : Option ℕ → Option ℕ → Bool
prefer_escape term none = false
prefer_escape none (some e) = true
prefer_escape (some k) (some e) = leb e k

-- `while (pos < in.size())`, with the terminator and the escape's character and sequence.
unfoldable pub scan : ℕ → Bytes → Bytes → Bytes → Bytes → ℕ → Bytes → Outcome Scan
unfolding find prefer_escape
scan zero term char seq input pos buffer = fault divergence
scan (suc fuel) term char seq input pos buffer =
    let term_pos = find term input in
    let esc_pos = find seq input in
    let e = offset esc_pos in
    let k = offset term_pos in
    let escape =
      scan fuel term char seq (drop (e + length seq) input) (pos + e + length seq)
        (buffer ++ (take e input ++ char)) in
    let stop : Scan = record {
      buffer = buffer ++ take k input;
      ready = true;
      consumed = pos + k + length term;
    } in
    let wait : Scan = record { buffer = buffer; ready = false; consumed = 0 } in
    if length input == 0
    then ok wait
    else if prefer_escape term_pos esc_pos
    then escape
    else elim term_pos [ none ↦ ok wait | some _ ↦ ok stop ]

-- One round for each byte is enough where the sequence is not empty.
unfoldable pub handle_read :
    Bytes → Option (Bytes × Bytes) → IoContext → Bytes → Outcome (IoContext × ℕ)
unfolding scan find
handle_read term (some (char, seq)) ctx input = do
  r ← scan (suc (length input)) term char seq input 0 ctx.buffer
  ok (record ctx { buffer = r.buffer; ready = ctx.ready || r.ready }, r.consumed)
handle_read term none ctx input = elim (find term input) [
  | none ↦ ok (ctx, 0)
  | some pos ↦ ok (record ctx { buffer = take pos input; ready = true }, pos + length term)
]

unfoldable pub ready_to_evaluate : IoContext → Bool
ready_to_evaluate ctx = ctx.ready || ctx.eof
