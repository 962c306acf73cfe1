-- ===== src/Io/Write/Escape.antt =====
-- apply_escape_replacement of operation/writeoctetswithescape.cpp
use mathlib.Core.List.{flat_map}
use building_programming_lan.Prelude.{
  ℕ, zero, suc, ◌+◌, ◌<◌, ◌≤◌, ◌≡◌, ◌≢◌, refl, none, some, [], ◌∷◌, ◌++◌, length, take, drop, arith,
  ◌==◌, if◌then◌else◌, append_assoc, append-nil, length-drop, length-append, ap, sym, ◌∙◌, inl, inr,
  Option-cases,
}
use building_programming_lan.Bytes.{Bytes, find, offset, starts_with}
use building_programming_lan.Bytes.Search.{Lacks}
use building_programming_lan.Outcome.{Outcome, ok, fault, divergence}

-- `while (pos < input.size())`; the input from `pos` on, and the result so far.
unfoldable pub replace_from : ℕ → Bytes → Bytes → Bytes → Bytes → Outcome Bytes
replace_from zero char seq input result = fault divergence
replace_from (suc fuel) char seq input result =
    let pos = find char input in
    let k = offset pos in
    let more =
      replace_from fuel char seq (drop (k + length char) input) (result ++ (take k input ++ seq)) in
    if length input == 0
    then ok result
    else elim pos [ none ↦ ok (result ++ input) | some _ ↦ more ]

-- A round for each byte is enough where the escape character is not empty.
unfoldable pub apply_escape_replacement : Bytes → Bytes → Bytes → Outcome Bytes
unfolding replace_from
apply_escape_replacement input char seq = replace_from (suc (length input)) char seq input []

-- The same, one byte at a time.
pub escape_byte : ℕ → Bytes → ℕ → Bytes
escape_byte c seq x = if x == c then seq else x ∷ []

pub escaped : ℕ → Bytes → Bytes → Bytes
unfolding escape_byte
escaped c seq = flat_map (escape_byte c seq)

escaped-none : (c : ℕ) (seq s : Bytes) → find (c ∷ []) s ≡ none → escaped c seq s ≡ s
unfolding escaped find starts_with flat_map
escaped-none c seq [] h = refl
escaped-none c seq (x ∷ s) h = ground (arith, escaped-none c seq s)

escaped-some :
    (c : ℕ) (seq s : Bytes) (k : ℕ)
    → find (c ∷ []) s ≡ some k
    → escaped c seq s ≡ take k s ++ (seq ++ escaped c seq (drop (k + 1) s))
unfolding escaped find starts_with flat_map
escaped-some c seq [] k h = absurd (ground arith)
escaped-some c seq (x ∷ s) zero h = ground arith
escaped-some c seq (x ∷ s) (suc k) h = ground (arith, escaped-some c seq s k)

module _ (fuel : ℕ) (char seq input result : Bytes) (left : length input ≢ 0) where
  replace_last :
      find char input ≡ none → replace_from (suc fuel) char seq input result ≡ ok (result ++ input)
  unfolding replace_from
  replace_last e = ground arith

  replace_next :
      (k : ℕ)
      → find char input ≡ some k
      → replace_from (suc fuel) char seq input result
        ≡ replace_from fuel char seq
            (drop (k + length char) input)
            (result ++ (take k input ++ seq))
  unfolding replace_from
  replace_next k e = ground arith

-- With one escape byte the loop replaces each occurrence and keeps every other byte.
pub replace_from-escaped :
    (fuel c : ℕ) (seq input result : Bytes)
    → length input < fuel
    → replace_from fuel (c ∷ []) seq input result ≡ ok (result ++ escaped c seq input)
replace_from-escaped zero c seq input result h = absurd (omega arith)
replace_from-escaped (suc fuel) c seq [] result h =
    unfold replace_from escaped flat_map in ap ok (sym (append-nil result))
replace_from-escaped (suc fuel) c seq (x ∷ s) result h =
    elim (Option-cases (find (c ∷ []) (x ∷ s))) [
      | inl e ↦
          rw (escaped-none c seq (x ∷ s) e)
            (replace_last fuel (c ∷ []) seq (x ∷ s) result (omega arith) e)
      | inr (k, e) ↦ rw (escaped-some c seq (x ∷ s) k e) (
          replace_next fuel (c ∷ []) seq (x ∷ s) result (omega arith) k e
          ∙ replace_from-escaped fuel c seq (drop (k + 1) (x ∷ s)) _
              (omega (arith, length-drop (k + 1) (x ∷ s)))
          ∙ ap ok (simp append_assoc))
    ]

-- If the byte string to replace is not empty, more rounds than the input has bytes are enough for
-- the replacement to end with a result.
pub replace_from-total :
    (fuel : ℕ) (char seq input result : Bytes)
    → 0 < length char
    → length input < fuel
    → (r : Bytes) × (replace_from fuel char seq input result ≡ ok r)
replace_from-total zero char seq input result p h = absurd (omega arith)
replace_from-total (suc fuel) char seq [] result p h = (result, unfold replace_from in refl)
replace_from-total (suc fuel) char seq (x ∷ s) result p h =
    elim (Option-cases (find char (x ∷ s))) [
      | inl e ↦ (result ++ x ∷ s, replace_last fuel char seq (x ∷ s) result (omega arith) e)
      | inr (k, e) ↦ rw (replace_next fuel char seq (x ∷ s) result (omega arith) k e) (
          replace_from-total fuel char seq (drop (k + length char) (x ∷ s)) _ p
            (omega (arith, length-drop (k + length char) (x ∷ s))))
    ]

pub escaped_hit : (c : ℕ) (seq v : Bytes) → escaped c seq (c ∷ v) ≡ seq ++ escaped c seq v
unfolding escaped flat_map
escaped_hit c seq v = ground arith

pub escaped_miss : (c x : ℕ) (seq v : Bytes) → x ≢ c → escaped c seq (x ∷ v) ≡ x ∷ escaped c seq v
unfolding escaped flat_map
escaped_miss c x seq v h = ground arith

pub escaped_nil : (c : ℕ) (seq : Bytes) → escaped c seq [] ≡ []
unfolding escaped flat_map
escaped_nil c seq = refl

pub length-escaped : (c : ℕ) (seq v : Bytes) → 0 < length seq → length v ≤ length (escaped c seq v)
unfolding escaped escape_byte flat_map
length-escaped c seq [] h = omega arith
length-escaped c seq (x ∷ v) h =
    ground (arith, length-escaped c seq v h, length-append (escape_byte c seq x) (escaped c seq v))

pub escaped_around :
    (c : ℕ) (seq w v : Bytes)
    → Lacks c w
    → escaped c seq (w ++ c ∷ v) ≡ w ++ (seq ++ escaped c seq v)
escaped_around c seq [] v f = escaped_hit c seq v
escaped_around c seq (x ∷ w) v f =
    escaped_miss c x seq (w ++ c ∷ v) f.0 ∙ ap (◌∷◌ x) (escaped_around c seq w v f.1)
