-- ===== src/Io/Lookahead.antt =====
-- operation/transitionlookahead.cpp: which message comes next, from the bytes at the front of the
-- input. `handle_read` replaces the buffer and consumes nothing.
pub mod Chosen
use building_programming_lan.Prelude.{
  ℕ, ◌≤◌, ◌≡◌, ◌≢◌, ◌↔◌, refl, Bool, true, false, not, Option, none, some, List, [], ◌∷◌, ◌++◌,
  length, take, arith, leb, ltb, ◌==◌, if◌then◌else◌, ◌&&◌, length-append,
}
use building_programming_lan.Bytes.{Bytes, eq_bytes, find, starts_with}
use building_programming_lan.Value.{
  Condition, eof_condition, match_until_terminator, static_string, OperationResult, value, octets,
}
use building_programming_lan.Io.Context.{IoContext, mismatch, need_read}

-- The pair (is_valid, is_permanently_invalid).
unfoldable pub match_condition : IoContext → Condition → Bool × Bool
match_condition ctx eof_condition =
    if length ctx.buffer == 0
    then (if ctx.eof then (true, true) else (false, false))
    else (false, true)
match_condition ctx (match_until_terminator terminator) = elim (find terminator ctx.buffer) [
  | some k ↦ (true, false)
  | none ↦ (false, ctx.eof)
]
match_condition ctx (static_string c) =
    if leb (length ctx.buffer) (length c)
    then (if eq_bytes ctx.buffer (take (length ctx.buffer) c)
        then (false, ctx.eof)
        else (false, true))
    else if eq_bytes (take (length c) ctx.buffer) c
    then (true, false)
    else (false, true)

-- The loop over the conditions, with `all_permanently_invalid` so far.
unfoldable pub decide : IoContext → List (Condition × Bytes) → Bool → OperationResult
decide ctx [] all = if all then mismatch else need_read
decide ctx ((condition, target) ∷ rest) all =
    let next = decide ctx rest (if not (match_condition ctx condition).1 then false else all) in
    if (match_condition ctx condition).0 then value (octets target) else next

unfoldable pub execute : List (Condition × Bytes) → IoContext → OperationResult
unfolding decide
execute conditions ctx = decide ctx conditions true

unfoldable pub handle_read : IoContext → Bytes → IoContext × ℕ
handle_read ctx input = (record ctx { buffer = input }, 0)

-- The same loop in `ready_to_evaluate`.
unfoldable pub is_decided : IoContext → List (Condition × Bytes) → Bool → Bool
is_decided ctx [] all = all
is_decided ctx ((condition, target) ∷ rest) all =
    let next = is_decided ctx rest (if not (match_condition ctx condition).1 then false else all) in
    if (match_condition ctx condition).0 then true else next

unfoldable pub ready_to_evaluate : List (Condition × Bytes) → IoContext → Bool
unfolding is_decided
ready_to_evaluate conditions ctx = is_decided ctx conditions true

decided-decide :
    (ctx : IoContext) (conditions : List (Condition × Bytes)) (all : Bool)
    → (is_decided ctx conditions all ≡ true) ↔ (decide ctx conditions all ≢ need_read)
unfolding is_decided decide
decided-decide ctx [] all = ground arith
decided-decide ctx ((condition, target) ∷ rest) all =
    ground (
      arith,
      decided-decide ctx rest (if not (match_condition ctx condition).1 then false else all),
    )

-- TransitionLookahead is ready to evaluate exactly when its evaluation would not wait for input.
pub ready-execute :
    (conditions : List (Condition × Bytes)) (ctx : IoContext)
    → (ready_to_evaluate conditions ctx ≡ true) ↔ (execute conditions ctx ≢ need_read)
unfolding ready_to_evaluate execute
ready-execute conditions ctx = decided-decide ctx conditions true

abbrev pub extend : IoContext → Bytes → IoContext
extend ctx more = record ctx { buffer = ctx.buffer ++ more }

take-starts_with :
    (c s : Bytes) → length c ≤ length s → eq_bytes (take (length c) s) c ≡ starts_with c s
unfolding eq_bytes starts_with
take-starts_with [] s h = refl
take-starts_with (x ∷ c) [] h = absurd (omega arith)
take-starts_with (x ∷ c) (y ∷ s) h = ground (arith, take-starts_with c s)

-- Two strings that agree up to the end of the shorter.
agree : Bytes → Bytes → Bool
agree [] c = true
agree (x ∷ b) [] = true
agree (x ∷ b) (y ∷ c) = if x == y then agree b c else false

agree_shorter : (b c : Bytes) → length b ≤ length c → eq_bytes b (take (length b) c) ≡ agree b c
unfolding eq_bytes agree
agree_shorter [] c h = refl
agree_shorter (x ∷ b) [] h = absurd (omega arith)
agree_shorter (x ∷ b) (y ∷ c) h = ground (arith, agree_shorter b c)

agree_longer : (b c : Bytes) → length c ≤ length b → eq_bytes (take (length c) b) c ≡ agree b c
unfolding eq_bytes agree
agree_longer [] [] h = refl
agree_longer (x ∷ b) [] h = refl
agree_longer [] (y ∷ c) h = absurd (omega arith)
agree_longer (x ∷ b) (y ∷ c) h = ground (arith, agree_longer b c)

agree-extend : (b more c : Bytes) → agree b c ≡ false → agree (b ++ more) c ≡ false
unfolding agree
agree-extend [] more c h = absurd (ground arith)
agree-extend (x ∷ b) more [] h = absurd (ground arith)
agree-extend (x ∷ b) more (y ∷ c) h = ground (arith, agree-extend b more c)

-- A static string matches a buffer that begins with it and goes on behind it.
static_lem :
    (ctx : IoContext) (c : Bytes)
    → (match_condition ctx (static_string c)).0
      ≡ (ltb (length c) (length ctx.buffer) && starts_with c ctx.buffer)
unfolding match_condition
static_lem ctx c = ground (arith, take-starts_with c ctx.buffer)

-- The two bits of a static string's test in terms of `agree`.
static_agree :
    (ctx : IoContext) (c : Bytes)
    → match_condition ctx (static_string c) ≡ (
        if agree ctx.buffer c
        then (
          ltb (length c) (length ctx.buffer),
          if ltb (length c) (length ctx.buffer) then false else ctx.eof,
        )
        else (false, true))
unfolding match_condition
static_agree ctx c = ground (arith, agree_shorter ctx.buffer c, agree_longer ctx.buffer c)

eof_extend :
    (ctx : IoContext) (more : Bytes)
    → ctx.eof ≡ false
    → (match_condition ctx eof_condition).1 ≡ true
    → match_condition (extend ctx more) eof_condition ≡ (false, true)
unfolding match_condition
eof_extend ctx more h e = ground (arith, length-append ctx.buffer more)

until_extend :
    (ctx : IoContext) (more t : Bytes)
    → ctx.eof ≡ false
    → (match_condition ctx (match_until_terminator t)).1 ≡ true
    → match_condition (extend ctx more) (match_until_terminator t) ≡ (false, true)
unfolding match_condition
until_extend ctx more t h e = ground arith

-- A condition that is permanently invalid before the end of the input never matches later.
invalid-extend :
    (ctx : IoContext) (more : Bytes) (condition : Condition)
    → ctx.eof ≡ false
    → (match_condition ctx condition).1 ≡ true
    → (match_condition (extend ctx more) condition ≡ (false, true))
invalid-extend ctx more eof_condition h e = eof_extend ctx more h e
invalid-extend ctx more (match_until_terminator t) h e = until_extend ctx more t h e
invalid-extend ctx more (static_string c) h e =
    ground
      (arith, static_agree ctx c, static_agree (extend ctx more) c, agree-extend ctx.buffer more c)

undecided :
    (ctx : IoContext) (conditions : List (Condition × Bytes))
    → decide ctx conditions false ≢ mismatch
unfolding decide
undecided ctx [] = ground arith
undecided ctx ((condition, target) ∷ rest) = ground (arith, undecided ctx rest)

decide-extend :
    (conditions : List (Condition × Bytes)) (ctx : IoContext) (more : Bytes) (all : Bool)
    → ctx.eof ≡ false
    → decide ctx conditions all ≡ mismatch
    → decide (extend ctx more) conditions all ≡ mismatch
unfolding decide
decide-extend [] ctx more all h e = e
decide-extend ((condition, target) ∷ rest) ctx more all h e = ground (
  arith,
  undecided ctx rest,
  decide-extend rest ctx more all h,
  invalid-extend ctx more condition h,
)

-- A mismatch of TransitionLookahead before the end of the input is final: no bytes that arrive
-- later undo it.
pub mismatch-extend :
    (conditions : List (Condition × Bytes)) (ctx : IoContext) (more : Bytes)
    → ctx.eof ≡ false
    → execute conditions ctx ≡ mismatch
    → execute conditions (extend ctx more) ≡ mismatch
unfolding execute
mismatch-extend conditions ctx more h e = decide-extend conditions ctx more true h e
