-- ===== src/Io/ReadUntil/Plain.antt =====
-- ReadOctetsUntilTerminator without an escape.
use building_programming_lan.Prelude.{
  ℕ, ◌+◌, ◌≡◌, refl, none, some, [], ◌∷◌, ◌++◌, length, arith, true, take-append_left, append-nil,
  take-length_append,
}
use building_programming_lan.Bytes.{Bytes, find}
use building_programming_lan.Bytes.Search.{find-bound, find-extend, Lacks, find-marker}
use building_programming_lan.Outcome.{ok}
use building_programming_lan.Value.{value, octets}
use building_programming_lan.Io.Context.{IoContext, new_io, need_read}
use building_programming_lan.Io.ReadUntil.{execute, handle_read}

-- Without an escape, input that arrives behind the first terminator changes neither the context
-- nor the number of bytes consumed.
pub handle_read-extend :
    (term input more : Bytes) (ctx : IoContext) (k : ℕ)
    → find term input ≡ some k
    → handle_read term none ctx (input ++ more) ≡ handle_read term none ctx input
unfolding handle_read
handle_read-extend term input more ctx k h = ground (
  arith,
  find-extend term input more k h,
  take-append_left k input more (omega (arith, find-bound term input k h)),
)

-- Until the terminator has come the operation consumes nothing and waits.
pub handle_read_waits :
    (term input : Bytes)
    → find term input ≡ none
    → (handle_read term none new_io input ≡ ok (new_io, 0)) × (execute new_io ≡ need_read)
unfolding handle_read execute
handle_read_waits term input h = (ground arith, refl)

-- Without an escape: if the last byte of the terminator occurs neither in the rest of it nor in a
-- value, the value followed by the terminator is consumed with it by one `handle_read` of a fresh
-- context and read back, whatever follows.
pub read_value :
    (c : ℕ) (pre value_bytes rest : Bytes)
    → Lacks c pre
    → Lacks c value_bytes
    → (r : IoContext) × (handle_read
          (pre ++ c ∷ [])
          none
          new_io
          (value_bytes ++ ((pre ++ c ∷ []) ++ rest))
        ≡ ok (r, length value_bytes + length (pre ++ c ∷ [])))
      × (execute r ≡ value (octets value_bytes))
unfolding handle_read execute
read_value c pre v rest fp fv = (
  record new_io { buffer = v; ready = true },
  ground (
    arith,
    find-marker c pre fp [] v rest fv,
    append-nil (pre ++ c ∷ []),
    take-length_append v ((pre ++ c ∷ []) ++ rest),
  ),
  refl,
)
