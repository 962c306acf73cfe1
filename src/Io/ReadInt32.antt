-- ===== src/Io/ReadInt32.antt =====
-- operation/readint32native.cpp, on a little-endian machine.
use building_programming_lan.Prelude.{
  ℕ, ◌+◌, ◌-◌, ◌*◌, ◌%◌, ◌≤◌, ◌≡◌, ◌∙◌, ap, Bool, true, ◌||◌, List, [], ◌∷◌, ◌++◌, length, take,
  arith, ltb, leb, min, take-append, take_all, append-nil, if◌then◌else◌, length-append,
  length-take, append-nil, append_assoc,
}
use building_programming_lan.Prelude.Int.{ℤ, pos, negsuc, in_int32}
use building_programming_lan.Bytes.{Bytes}
use building_programming_lan.Value.{OperationResult, value, int32}
use building_programming_lan.Io.Context.{IoContext, new_io, mismatch, need_read}
use building_programming_lan.Io.Write.{int32_bytes}

-- The integer that a 32-bit pattern stands for.
unfoldable pub of_word : ℕ → ℤ
of_word w = if ltb w 2147483648 then pos w else negsuc (4294967295 - w)

-- `std::memcpy(&v, buffer.c_str(), 4)`
unfoldable pub bytes_int32 : Bytes → ℤ
unfolding of_word
bytes_int32 (a ∷ b ∷ c ∷ d ∷ s) = of_word (a + 256 * b + 65536 * c + 16777216 * d)
bytes_int32 s = pos 0

unfoldable pub execute : IoContext → OperationResult
unfolding bytes_int32
execute ctx =
    if ltb (length ctx.buffer) 4
    then (if ctx.eof then mismatch else need_read)
    else value (int32 (bytes_int32 ctx.buffer))

-- `4 - ctx.buffer.length()` is a `size_t`: it wraps where the buffer is longer, which it never is.
unfoldable pub expecting : IoContext → ℕ
expecting ctx = (18446744073709551616 + 4 - length ctx.buffer) % 18446744073709551616

unfoldable pub handle_read : IoContext → Bytes → IoContext × ℕ
handle_read ctx input =
    if ltb 0 (expecting ctx)
    then (if ltb (expecting ctx) (length input)
        then (record ctx { buffer = ctx.buffer ++ take (expecting ctx) input }, expecting ctx)
        else (record ctx { buffer = ctx.buffer ++ input }, length input))
    else (ctx, 0)

unfoldable pub ready_to_evaluate : IoContext → Bool
ready_to_evaluate ctx = leb 4 (length ctx.buffer) || ctx.eof

expecting_lem : (ctx : IoContext) → length ctx.buffer ≤ 4 → expecting ctx ≡ 4 - length ctx.buffer
unfolding expecting
expecting_lem ctx h = omega arith

-- Whatever bytes a call is given, it takes as many as still fit: the buffer grows by what is
-- consumed, and never passes four.
pub handle_read_step :
    (ctx : IoContext) (input : Bytes)
    → length ctx.buffer ≤ 4
    → let r = handle_read ctx input in
      (r.0.buffer ≡ ctx.buffer ++ take r.1 input)
      × (r.1 ≡ min (4 - length ctx.buffer) (length input))
unfolding handle_read
handle_read_step ctx input h =
    ground (
      arith,
      expecting_lem ctx h,
      take_all (length input) input (omega arith),
      append-nil ctx.buffer,
    )

-- Reading a list of fragments, each behind what the ones before left over.
pub feed : List Bytes → IoContext → IoContext
unfolding handle_read
feed [] ctx = ctx
feed (s ∷ ss) ctx = feed ss (handle_read ctx s).0

unfoldable pub flatten : List Bytes → Bytes
flatten [] = []
flatten (s ∷ ss) = s ++ flatten ss

room_left : (b s r : ℕ) → r ≡ b + min (4 - b) s → b ≤ 4 → 4 - r ≡ 4 - b - s
room_left b s r e h = omega arith

-- Whatever the fragments that arrive, the buffer of a context that holds at most four bytes is
-- filled up to four with the first bytes of their concatenation.
pub feed-flatten :
    (ss : List Bytes) (ctx : IoContext)
    → length ctx.buffer ≤ 4
    → (feed ss ctx).buffer ≡ ctx.buffer ++ take (4 - length ctx.buffer) (flatten ss)
unfolding feed flatten
feed-flatten [] ctx h =
    rw (take_all {A = ℕ} (4 - length ctx.buffer) [] (omega arith), append-nil ctx.buffer)
feed-flatten (s ∷ ss) ctx h =
    let step = handle_read_step ctx s h in
    let grown : length (handle_read ctx s).0.buffer ≡ length ctx.buffer + (handle_read ctx s).1 =
      omega (
        arith,
        ap length step.0,
        length-append ctx.buffer (take (handle_read ctx s).1 s),
        length-take (handle_read ctx s).1 s,
        step.1,
      ) in
    feed-flatten ss (handle_read ctx s).0 (omega (arith, grown, step.1))
    ∙ ap (λ (n : ℕ). (handle_read ctx s).0.buffer ++ take n (flatten ss))
        (room_left (length ctx.buffer) (length s) (length (handle_read ctx s).0.buffer)
          (grown ∙ ap (λ (n : ℕ). length ctx.buffer + n) step.1) h)
    ∙ cc (
      step.0,
      step.1,
      take-append (4 - length ctx.buffer) s (flatten ss),
      append_assoc ctx.buffer (take (min (4 - length ctx.buffer) (length s)) s)
          (take (4 - length ctx.buffer - length s) (flatten ss)),
    )

word_bytes : (v : ℤ) (s : Bytes) → in_int32 v ≡ true → bytes_int32 (int32_bytes v ++ s) ≡ v
unfolding bytes_int32 int32_bytes
word_bytes (pos n) s h = ground arith
word_bytes (negsuc n) s h = ground arith

-- An integer in the range of int32_t that WriteInt32Native writes is read back, however the bytes
-- are cut into fragments and whatever follows them.
pub read-write_int32 :
    (v : ℤ) (ss : List Bytes) (rest : Bytes)
    → in_int32 v ≡ true
    → flatten ss ≡ int32_bytes v ++ rest
    → execute (feed ss new_io) ≡ value (int32 v)
unfolding execute
read-write_int32 v ss rest h e =
    rw (feed-flatten ss new_io (omega arith), e)
      (unfold int32_bytes in ground (arith, word_bytes v [] h))
