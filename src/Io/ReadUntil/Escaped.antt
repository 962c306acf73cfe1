-- ===== src/Io/ReadUntil/Escaped.antt =====
-- ReadOctetsUntilTerminator with an escape, against what WriteOctetsWithEscape writes.
use native.Mathlib.Decide.{ℕ_discrete}
use building_programming_lan.Prelude.{
  ℕ, zero, suc, ◌+◌, ◌<◌, ◌≤◌, ◌≡◌, ◌≢◌, refl, subst, ◌∙◌, some, [], ◌∷◌, ◌++◌, length, take, drop,
  arith, true, false, inl, inr, Option-cases, length-append, take-length_append, drop-length_append,
  drop-append_add, append-nil, append_assoc,
}
use building_programming_lan.Bytes.{Bytes, find, starts_with}
use building_programming_lan.Bytes.Search.{Lacks, Lacks-append, find-marker, find_past_marker}
use building_programming_lan.Outcome.{Outcome, ok}
use building_programming_lan.Value.{value, octets}
use building_programming_lan.Io.Context.{IoContext, new_io}
use building_programming_lan.Io.ReadUntil.{Scan, scan, execute, handle_read}
use building_programming_lan.Io.Write.Escape.{
  apply_escape_replacement, replace_from-escaped, escaped, escaped_hit, escaped_miss, escaped_nil,
  escaped_around, length-escaped,
}

module _ (fuel : ℕ) (term char seq input : Bytes) (pos : ℕ) (buffer : Bytes)
    (left : length input ≢ 0) where
  -- A round that takes an escape sequence.
  scan_escape :
      (e k : ℕ)
      → find seq input ≡ some e
      → find term input ≡ some k
      → e ≤ k
      → scan (suc fuel) term char seq input pos buffer
        ≡ scan fuel term char seq
            (drop (e + length seq) input)
            (pos + e + length seq)
            (buffer ++ (take e input ++ char))
  unfolding scan
  scan_escape e k found_seq found_term h = ground arith

  -- The round that takes the terminator.
  scan_stop :
      (k : ℕ)
      → find term input ≡ some k
      → ((e : ℕ) → find seq input ≡ some e → k < e)
      → scan (suc fuel) term char seq input pos buffer
        ≡ ok (record {
          buffer = buffer ++ take k input;
          ready = true;
          consumed = pos + k + length term;
        })
  unfolding scan
  scan_stop k found h = elim (Option-cases (find seq input)) [
    | inl e ↦ ground arith
    | inr (j, e) ↦ ground (arith, h j e)
  ]

-- `pos < in.size()` fails.
scan_end :
    (fuel : ℕ) (term char seq : Bytes) (pos : ℕ) (buffer : Bytes)
    → 0 < fuel
    → scan fuel term char seq [] pos buffer
      ≡ ok (record { buffer = buffer; ready = false; consumed = 0 })
unfolding scan
scan_end zero term char seq pos buffer h = absurd (omega arith)
scan_end (suc fuel) term char seq pos buffer h = refl

abbrev read_so_far : Bytes → ℕ → Outcome Scan
read_so_far b n = ok (record { buffer = b; ready = true; consumed = n })

-- The terminator is `pre ++ c`, the sequence that stands for `c` is the terminator and `u`.
module _ (c : ℕ) (pre u rest : Bytes) (fp : Lacks c pre) (other : starts_with u rest ≡ false) where
  abbrev term : Bytes
  term = pre ++ c ∷ []

  abbrev seq : Bytes
  seq = term ++ u

  find-term : (w z : Bytes) → Lacks c w → find term (w ++ (term ++ z)) ≡ some (length w)
  find-term w z f =
      subst (λ (n : Bytes). find n (w ++ (n ++ z)) ≡ some (length w)) (append-nil term)
        (find-marker c pre fp [] w z f)

  length_text : (w z : Bytes) → length (w ++ (term ++ z)) ≢ 0
  length_text w z =
      omega (arith, length-append w (term ++ z), length-append term z, length-append pre (c ∷ []))

  same_scan : {b b' : Bytes} {n n' : ℕ} → b ≡ b' → n ≡ n' → read_so_far b n ≡ read_so_far b' n'
  same_scan p q = cc

  -- One escape sequence, behind bytes without `c`.
  scan_hit :
      (w z : Bytes) (fuel pos : ℕ) (buffer : Bytes)
      → Lacks c w
      → scan (suc fuel) term (c ∷ []) seq (w ++ (seq ++ z)) pos buffer
        ≡ scan fuel term (c ∷ []) seq z (pos + length w + length seq) (buffer ++ (w ++ c ∷ []))
  scan_hit w z fuel pos buffer f =
      scan_escape fuel term (c ∷ []) seq (w ++ (seq ++ z)) pos buffer
        (rw (append_assoc term u z) (length_text w (u ++ z))) (length w) (length w)
        (find-marker c pre fp u w z f) (rw (append_assoc term u z) (find-term w (u ++ z) f))
        (omega arith)
      ∙ rw (drop-append_add w (seq ++ z), drop-length_append seq z, take-length_append w)

  scan-escaped :
      (v w : Bytes) (fuel pos : ℕ) (buffer : Bytes)
      → Lacks c w
      → length v < fuel
      → scan fuel term (c ∷ []) seq (w ++ (escaped c seq v ++ (term ++ rest))) pos buffer
        ≡ read_so_far (buffer ++ (w ++ v)) (pos + length w + length (escaped c seq v) + length term)
  scan-escaped v w zero pos buffer f h = absurd (omega arith)
  scan-escaped [] w (suc fuel) pos buffer f h = rw escaped_nil (
      scan_stop fuel term (c ∷ []) seq (w ++ (term ++ rest)) pos buffer (length_text w rest)
        (length w) (find-term w rest f) (λ e p. find_past_marker c pre fp u w rest e f other p)
      ∙ same_scan (rw (take-length_append w, append-nil w)) (omega arith))
  scan-escaped (x ∷ v) w (suc fuel) pos buffer f h = elim (ℕ_discrete x c) [
    | yes hit ↦
        rw (hit, escaped_hit c seq v, append_assoc seq)
          (scan_hit w (escaped c seq v ++ (term ++ rest)) fuel pos buffer f
            ∙ scan-escaped v [] fuel (pos + length w + length seq) (buffer ++ (w ++ c ∷ [])) tt
                (omega arith)
            ∙ same_scan (simp append_assoc) (omega (arith, length-append seq (escaped c seq v))))
    | no miss ↦
        rw (escaped_miss c x seq v miss, ← append_assoc w (x ∷ []))
          (scan-escaped v (w ++ x ∷ []) (suc fuel) pos buffer
              (Lacks-append c w (x ∷ []) f (miss, tt)) (omega arith)
            ∙ same_scan (simp append_assoc) (omega (arith, length-append w (x ∷ []))))
  ]

  length-seq : 0 < length seq
  length-seq = omega (arith, length-append term u, length-append pre (c ∷ []))

  -- The whole wire text, read into a context that may hold bytes already.
  read_wire :
      (v : Bytes) (ctx : IoContext)
      → handle_read term (some (c ∷ [], seq)) ctx (escaped c seq v ++ (term ++ rest))
        ≡ ok (
          record ctx { buffer = ctx.buffer ++ v; ready = true },
          length (escaped c seq v) + length term,
        )
  unfolding handle_read
  read_wire v ctx = ground (
    arith,
    scan-escaped v [] (suc (length (escaped c seq v ++ (term ++ rest)))) 0 ctx.buffer tt (
        omega (
          arith,
          length-escaped c seq v length-seq,
          length-append (escaped c seq v) (term ++ rest),
        )),
  )

  -- If the terminator's last byte `c` occurs in it only there, the escape sequence is the
  -- terminator followed by `u`, and what follows the terminator on the wire does not begin with
  -- `u`: any value that WriteOctetsWithEscape writes, with `c` replaced by the sequence, is
  -- consumed with the terminator behind it, by one `handle_read` of a fresh context, and read back.
  pub read-write_escaped :
      (v : Bytes)
      → (wire : Bytes) × (apply_escape_replacement v (c ∷ []) seq ≡ ok wire)
        × (r : IoContext) × (handle_read term (some (c ∷ [], seq)) new_io (wire ++ (term ++ rest))
            ≡ ok (r, length wire + length term))
        × (execute r ≡ value (octets v))
  unfolding execute apply_escape_replacement
  read-write_escaped v = (
    escaped c seq v,
    replace_from-escaped (suc (length v)) c seq v [] (omega arith),
    record new_io { buffer = v; ready = true },
    read_wire v new_io,
    refl,
  )

  wire_split :
      (w v : Bytes)
      → (w ++ (seq ++ escaped c seq v)) ++ (term ++ rest)
        ≡ w ++ (seq ++ (escaped c seq v ++ (term ++ rest)))
  wire_split w v = simp append_assoc

  read_fragment :
      (w : Bytes)
      → Lacks c w
      → handle_read term (some (c ∷ [], seq)) new_io (w ++ seq)
        ≡ ok (record new_io { buffer = w ++ c ∷ [] }, 0)
  unfolding handle_read
  read_fragment w f = ground (
    arith,
    append-nil seq,
    scan_hit w [] (length (w ++ seq)) 0 [] f,
    scan_end (length (w ++ seq)) term (c ∷ []) seq (0 + length w + length seq) (w ++ c ∷ [])
        (omega (arith, length-append w seq, length-seq)),
  )

  -- If the terminator's last byte `c` occurs in it only there, the escape sequence is the
  -- terminator followed by `u`, what follows the terminator on the wire does not begin with `u`,
  -- and `w` lacks `c`: a fragment that is `w` and an escape sequence is not consumed, and yet `w`
  -- and `c` are kept in the buffer, so that reading it again with the rest of the value gives
  -- them twice.
  pub retry_duplicates :
      (w v : Bytes)
      → Lacks c w
      → let wire = w ++ (seq ++ (escaped c seq v ++ (term ++ rest))) in
        (first : IoContext) × (handle_read term (some (c ∷ [], seq)) new_io (w ++ seq)
          ≡ ok (first, 0))
        × (second : IoContext) × (handle_read term (some (c ∷ [], seq)) first wire
            ≡ ok (second, length (w ++ (seq ++ escaped c seq v)) + length term))
        × (execute second ≡ value (octets ((w ++ c ∷ []) ++ (w ++ c ∷ v))))
  unfolding execute
  retry_duplicates w v f = (
    record new_io { buffer = w ++ c ∷ [] },
    read_fragment w f,
    record new_io { buffer = (w ++ c ∷ []) ++ (w ++ c ∷ v); ready = true },
    subst
        (λ (s : Bytes).
          handle_read term (some (c ∷ [], seq)) (record new_io { buffer = w ++ c ∷ [] }) s
          ≡ ok (
            record new_io { buffer = (w ++ c ∷ []) ++ (w ++ c ∷ v); ready = true },
            length (w ++ (seq ++ escaped c seq v)) + length term,
          ))
        (wire_split w v)
        (subst
          (λ (s : Bytes).
            handle_read term (some (c ∷ [], seq)) (record new_io { buffer = w ++ c ∷ [] })
              (s ++ (term ++ rest))
            ≡ ok (
              record new_io { buffer = (w ++ c ∷ []) ++ (w ++ c ∷ v); ready = true },
              length s + length term,
            ))
          (escaped_around c seq w v f)
          (read_wire (w ++ c ∷ v) (record new_io { buffer = w ++ c ∷ [] }))),
    refl,
  )
