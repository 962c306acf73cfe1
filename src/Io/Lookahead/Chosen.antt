-- ===== src/Io/Lookahead/Chosen.antt =====
-- operation/transitionlookahead.cpp: which target the lookahead gives, against a description of the
-- conditions by what stands in the buffer.
use building_programming_lan.Prelude.{
  ==_iff, ℕ, ◌≡◌, ◌↔◌, ◌⊎◌, refl, ap, inl, inr, Bool, true, false, not, none, some, List, [], ◌∷◌,
  ◌++◌, length, arith, ltb, if◌then◌else◌, ◌&&◌, Bool-cases, Option-cases, subst,
}
use mathlib.Core.Bool.{false≢true}
use building_programming_lan.Bytes.{Bytes, find, starts_with, starts_with_split, starts_with-append}
use building_programming_lan.Value.{
  Condition, eof_condition, match_until_terminator, static_string, value, octets, OperationResult,
}
use building_programming_lan.Io.Context.{IoContext}
use building_programming_lan.Io.Lookahead.{match_condition, decide, execute, static_lem}

-- The end of the input with nothing in the buffer; the terminator somewhere in the buffer; the string
-- at the front of the buffer, with at least one byte behind it.
unfoldable pub Matches : IoContext → Condition → Type 0
Matches ctx eof_condition = (ctx.buffer ≡ []) × (ctx.eof ≡ true)
Matches ctx (match_until_terminator t) =
    (before after : Bytes) × (ctx.buffer ≡ before ++ (t ++ after))
Matches ctx (static_string c) = (x : ℕ) × (after : Bytes) × (ctx.buffer ≡ c ++ x ∷ after)

-- The target is that of the first condition that matches.
unfoldable pub Chosen : IoContext → List (Condition × Bytes) → Bytes → Type 0
unfolding Matches
Chosen ctx [] t = ⊥
Chosen ctx ((condition, target) ∷ rest) t =
    (Matches ctx condition × (target ≡ t)) ⊎ ((¬ Matches ctx condition) × Chosen ctx rest t)

empty_lem : (s : Bytes) → length s ≡ 0 → s ≡ []
empty_lem [] h = refl
empty_lem (x ∷ s) h = absurd (omega arith)

find-split :
    (n s : Bytes) (k : ℕ)
    → find n s ≡ some k
    → (before after : Bytes) × (s ≡ before ++ (n ++ after))
unfolding find
find-split n [] k h = elim (Bool-cases (starts_with n [])) [
  | inl e ↦ (let r = starts_with_split n [] e in ([], r.0, r.1))
  | inr e ↦ absurd (ground (arith, h, e))
]
find-split n (x ∷ s) k h = elim (Bool-cases (starts_with n (x ∷ s))) [
  | inl e ↦ (let r = starts_with_split n (x ∷ s) e in ([], r.0, r.1))
  | inr e ↦ elim (Option-cases (find n s)) [
    | inl f ↦ absurd (ground (arith, h, e, f))
    | inr (j, f) ↦ (let later = find-split n s j f in (x ∷ later.0, later.1, ap (◌∷◌ x) later.2))
  ]
]

find-none_front : (n s : Bytes) → find n s ≡ none → starts_with n s ≡ false
unfolding find
find-none_front n [] h = ground arith
find-none_front n (x ∷ s) h = ground arith

find-none_tail : (n : Bytes) (x : ℕ) (s : Bytes) → find n (x ∷ s) ≡ none → find n s ≡ none
unfolding find
find-none_tail n x s h = elim (Option-cases (find n s)) [
  | inl e ↦ e
  | inr (k, e) ↦ absurd (ground (arith, h, e))
]

-- A needle that stands in a text is found.
occurs : (n before after : Bytes) → ¬ (find n (before ++ (n ++ after)) ≡ none)
occurs n [] after h =
    absurd (ground (arith, find-none_front n (n ++ after) h, starts_with-append n after))
occurs n (x ∷ before) after h =
    occurs n before after (find-none_tail n x (before ++ (n ++ after)) h)

until_iff :
    (ctx : IoContext) (t : Bytes)
    → ((match_condition ctx (match_until_terminator t)).0 ≡ true)
      ↔ Matches ctx (match_until_terminator t)
unfolding match_condition Matches
until_iff ctx t = elim (Option-cases (find t ctx.buffer)) [
  | inl e ↦ (
    λ h. absurd (ground (arith, h, e)),
    λ m. absurd (occurs t m.0 m.1 (subst (λ s. find t s ≡ none) m.2 e)),
  )
  | inr (k, e) ↦ (λ h. find-split t ctx.buffer k e, λ m. ground (arith, e))
]

eof_iff :
    (ctx : IoContext) → ((match_condition ctx eof_condition).0 ≡ true) ↔ Matches ctx eof_condition
unfolding match_condition Matches
eof_iff ctx = elim (Bool-cases ctx.eof) [
  | inl e ↦
      (λ h. (empty_lem ctx.buffer (ground (arith, h, e)), e), λ m. ground (arith, e, ap length m.0))
  | inr e ↦ (λ h. absurd (ground (arith, h, e)), λ m. absurd (ground (arith, e, m.1)))
]

∷-head : {x y : ℕ} {xs ys : Bytes} → x ∷ xs ≡ y ∷ ys → x ≡ y
∷-head h = cc

∷-tail : {x y : ℕ} {xs ys : Bytes} → x ∷ xs ≡ y ∷ ys → xs ≡ ys
∷-tail h = cc

same_front : (x y : ℕ) {s t : Bytes} → x ≡ y → s ≡ t → y ∷ s ≡ x ∷ t
same_front x y e h = cc

-- What is at least as long as a string and more, and begins with it, goes on behind it.
goes_on :
    (c s : Bytes)
    → ((ltb (length c) (length s) && starts_with c s) ≡ true)
      ↔ ((x : ℕ) × (after : Bytes) × (s ≡ c ++ x ∷ after))
unfolding starts_with
goes_on [] [] = (λ h. absurd (ground arith), λ m. absurd (ground (arith, ap length m.2)))
goes_on [] (y ∷ s) = (λ h. (y, s, refl), λ m. ground arith)
goes_on (x ∷ c) [] = (λ h. absurd (ground arith), λ m. absurd (ground (arith, ap length m.2)))
goes_on (x ∷ c) (y ∷ s) = (
  λ h.
      let rest = (goes_on c s).0 (ground (arith, h)) in
      let same = (==_iff x y).0 (ground (arith, h)) in (rest.0, rest.1, same_front x y same rest.2),
  λ m. let tail = (goes_on c s).1 (m.0, m.1, ∷-tail m.2) in ground (arith, tail, ∷-head m.2),
)

static_iff :
    (ctx : IoContext) (c : Bytes)
    → ((match_condition ctx (static_string c)).0 ≡ true) ↔ Matches ctx (static_string c)
unfolding Matches
static_iff ctx c = rw (static_lem ctx c) (goes_on c ctx.buffer)

condition_iff :
    (ctx : IoContext) (condition : Condition)
    → ((match_condition ctx condition).0 ≡ true) ↔ Matches ctx condition
condition_iff ctx eof_condition = eof_iff ctx
condition_iff ctx (match_until_terminator t) = until_iff ctx t
condition_iff ctx (static_string c) = static_iff ctx c

-- One condition, with a test that decides whether it matches.
chosen_iff :
    (matched : Bool) (M C : Type 0) (target t : Bytes) (next : OperationResult)
    → (matched ≡ true) ↔ M
    → (next ≡ value (octets t)) ↔ C
    → ((if matched then value (octets target) else next) ≡ value (octets t))
      ↔ ((M × (target ≡ t)) ⊎ ((¬ M) × C))
chosen_iff true M C target t next m n = (
  λ h. inl (m.0 refl, cc),
  λ c. elim c [
    | inl (_, e) ↦ ap (λ u. value (octets u)) e
    | inr (unmatched, _) ↦ absurd (unmatched (m.0 refl))
  ],
)
chosen_iff false M C target t next m n = (
  λ h. inr (λ y. false≢true (m.1 y), n.0 h),
  λ c. elim c [ inl (y, _) ↦ absurd (false≢true (m.1 y)) | inr (_, c) ↦ n.1 c ],
)

decide-Chosen :
    (ctx : IoContext) (conditions : List (Condition × Bytes)) (all : Bool) (t : Bytes)
    → (decide ctx conditions all ≡ value (octets t)) ↔ Chosen ctx conditions t
unfolding decide Chosen
decide-Chosen ctx [] all t = ground arith
decide-Chosen ctx ((condition, target) ∷ rest) all t =
    chosen_iff (match_condition ctx condition).0 (Matches ctx condition) (Chosen ctx rest t) target
      t _ (condition_iff ctx condition)
      (decide-Chosen ctx rest (if not (match_condition ctx condition).1 then false else all) t)

-- TransitionLookahead returns a target exactly when it is that of the first condition that matches: the
-- end of the input with an empty buffer, a terminator that stands in the buffer, or a string that the
-- buffer begins with and goes on behind.
pub execute-Chosen :
    (conditions : List (Condition × Bytes)) (ctx : IoContext) (t : Bytes)
    → (execute conditions ctx ≡ value (octets t)) ↔ Chosen ctx conditions t
unfolding execute
execute-Chosen conditions ctx t = decide-Chosen ctx conditions true t
