-- ===== src/Io/ReadUntil/Total.antt =====
-- The reading loop ends, for every terminator and every escape that is not empty.
use building_programming_lan.Prelude.{
  ℕ, zero, suc, ◌+◌, ◌<◌, ◌≡◌, refl, true, false, some, [], ◌++◌, length, take, drop, arith, inl,
  inr, ◌||◌, Bool-cases, Option-cases, length-drop, ◌==◌,
}
use building_programming_lan.Bytes.{Bytes, find, offset}
use building_programming_lan.Outcome.{ok}
use building_programming_lan.Io.Context.{IoContext}
use building_programming_lan.Io.ReadUntil.{Scan, scan, handle_read, prefer_escape}

module _ (fuel : ℕ) (term char seq input : Bytes) (pos : ℕ) (buffer : Bytes) where
  -- A round either goes on behind an escape sequence or returns.
  scan_round :
      (prefer_escape (find term input) (find seq input) ≡ true
        → (r : Scan) × (scan fuel term char seq
              (drop (offset (find seq input) + length seq) input)
              (pos + offset (find seq input) + length seq)
              (buffer ++ (take (offset (find seq input)) input ++ char))
            ≡ ok r))
      → (r : Scan) × (scan (suc fuel) term char seq input pos buffer ≡ ok r)
  scan_round again = elim (Bool-cases (length input == 0)) [
    | inl done ↦
        (record { buffer = buffer; ready = false; consumed = 0 }, unfold scan in ground arith)
    | inr left ↦ elim (Bool-cases (prefer_escape (find term input) (find seq input))) [
      | inl p ↦ ((again p).0, unfold scan in ground (arith, (again p).1))
      | inr q ↦ elim (Option-cases (find term input)) [
        | inl e ↦
            (record { buffer = buffer; ready = false; consumed = 0 }, unfold scan in ground arith)
        | inr (k, e) ↦ (
          record {
            buffer = buffer ++ take k input;
            ready = true;
            consumed = pos + k + length term;
          },
          unfold scan in ground arith,
        )
      ]
    ]
  ]

scan-total :
    (fuel : ℕ) (term char seq input : Bytes) (pos : ℕ) (buffer : Bytes)
    → 0 < length seq
    → length input < fuel
    → (r : Scan) × (scan fuel term char seq input pos buffer ≡ ok r)
scan-total zero term char seq input pos buffer p h = absurd (omega arith)
scan-total (suc fuel) term char seq [] pos buffer p h =
    (record { buffer = buffer; ready = false; consumed = 0 }, unfold scan in refl)
scan-total (suc fuel) term char seq input pos buffer p h =
    scan_round fuel term char seq input pos buffer λ _.
      scan-total fuel term char seq _ _ _ p
        (omega (arith, length-drop (offset (find seq input) + length seq) input))

-- With an escape sequence that is not empty, `handle_read` returns, whatever the input and the
-- context: the rounds given are enough.
pub handle_read-total :
    (term char seq input : Bytes) (ctx : IoContext)
    → 0 < length seq
    → (r : IoContext × ℕ) × (handle_read term (some (char, seq)) ctx input ≡ ok r)
handle_read-total term char seq input ctx p =
    let (r, e) = scan-total (suc (length input)) term char seq input 0 ctx.buffer p (omega arith) in
    (
      (record ctx { buffer = r.buffer; ready = ctx.ready || r.ready }, r.consumed),
      unfold handle_read in ground (arith, e),
    )
