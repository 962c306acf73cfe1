-- ===== src/Collection.antt =====
-- interpretercollectionmanager.cpp, interpretercollection.hpp and support/transactionalcontainer.hpp: the
-- interpreters by file descriptor. A context is an address, as it is shared with the threads that run
-- it; `exited` is what its flag holds when a transaction reads it.
pub mod Transaction
use building_programming_lan.Prelude.{
  ℕ, ◌≡◌, ◌≢◌, refl, sym, ◌∙◌, Bool, true, false, Option, none, some, List, [], ◌∷◌, if◌then◌else◌,
  ◌==◌, arith, Bool-cases, inl, inr, ◌⊎◌, Option-cases, subst, ap, ==_iff, if_true, if_false,
}

-- The map from descriptors to contexts.
abbrev pub Interpreters : Type 0
Interpreters = List (ℕ × ℕ)

unfoldable pub find_interpreter : ℕ → Interpreters → Option ℕ
find_interpreter fd [] = none
find_interpreter fd ((d, ctx) ∷ rest) = if d == fd then some ctx else find_interpreter fd rest

unfoldable pub erase : ℕ → Interpreters → Interpreters
erase fd [] = []
erase fd ((d, ctx) ∷ rest) =
    let after = erase fd rest in if d == fd then after else (d, ctx) ∷ after

-- What the transaction does with the interpreter that the descriptor has; `none` where it throws.
unfoldable pub replace_interpreter :
    (ℕ → Bool) → ℕ → ℕ → Option ℕ → Interpreters → Option Interpreters
unfolding erase
replace_interpreter exited fd ctx none current = some ((fd, ctx) ∷ current)
replace_interpreter exited fd ctx (some old) current =
    if exited old then some ((fd, ctx) ∷ erase fd current) else none

-- The transactions of `insert_interpreter` and `remove_interpreter`.
unfoldable pub insert_interpreter : (ℕ → Bool) → ℕ → ℕ → Interpreters → Option Interpreters
unfolding replace_interpreter find_interpreter
insert_interpreter exited fd ctx current =
    replace_interpreter exited fd ctx (find_interpreter fd current) current

unfoldable pub remove_interpreter : ℕ → Interpreters → Interpreters
unfolding erase
remove_interpreter fd current = erase fd current

-- A removed descriptor has no interpreter, and the others keep theirs.
find-erase : (fd : ℕ) (current : Interpreters) → find_interpreter fd (erase fd current) ≡ none
unfolding find_interpreter erase
find-erase fd [] = refl
find-erase fd ((d, ctx) ∷ rest) = ground (arith, find-erase fd rest)

find-erase_other :
    (fd other : ℕ) (current : Interpreters)
    → other ≢ fd
    → find_interpreter other (erase fd current) ≡ find_interpreter other current
unfolding find_interpreter erase
find-erase_other fd other [] h = refl
find-erase_other fd other ((d, ctx) ∷ rest) h = ground (arith, find-erase_other fd other rest h)

-- What the descriptors of a map have after an insertion: the new context, and otherwise what they had.
abbrev pub Updated : ℕ → ℕ → Interpreters → Interpreters → ℕ → Type 0
Updated fd ctx before after other =
    find_interpreter other after ≡ (if other == fd then some ctx else find_interpreter other before)

added :
    (fd ctx : ℕ) (current : Interpreters) (other : ℕ)
    → Updated fd ctx current ((fd, ctx) ∷ current) other
unfolding find_interpreter
added fd ctx current other = ground arith

replaced :
    (fd ctx : ℕ) (current : Interpreters) (other : ℕ)
    → Updated fd ctx current ((fd, ctx) ∷ erase fd current) other
unfolding find_interpreter
replaced fd ctx current other = elim (Bool-cases (other == fd)) [
  | inl e ↦ ground arith
  | inr e ↦
      let same = find-erase_other fd other current (λ q. absurd (ground (arith, q))) in
      ground (arith, same)
]

-- Whether an insertion goes through: the descriptor is free, or its interpreter has exited.
abbrev pub Insertable : (ℕ → Bool) → Option ℕ → Type 0
Insertable exited none = Unit {0}
Insertable exited (some old) = exited old ≡ true

-- An insertion either goes through, where the descriptor has no interpreter or one that has exited,
-- and then the descriptor has the new context and any other descriptor what it had; or it throws,
-- where the descriptor has an interpreter that has not exited.
pub insert_interpreter_lem :
    (exited : ℕ → Bool) (fd ctx : ℕ) (current : Interpreters) (other : ℕ)
    → ((after : Interpreters) × (insert_interpreter exited fd ctx current ≡ some after)
        × Insertable exited (find_interpreter fd current)
        × Updated fd ctx current after other)
      ⊎ ((insert_interpreter exited fd ctx current ≡ none)
          × (old : ℕ) × (find_interpreter fd current ≡ some old)
          × (exited old ≡ false))
unfolding insert_interpreter replace_interpreter
insert_interpreter_lem exited fd ctx current other =
    let insert = λ (o : Option ℕ). replace_interpreter exited fd ctx o current in
    elim (Option-cases (find_interpreter fd current)) [
      | inl h ↦ inl (
        (fd, ctx) ∷ current,
        ap insert h,
        subst (Insertable exited) (sym h) tt,
        added fd ctx current other,
      )
      | inr (old, h) ↦ elim (Bool-cases (exited old)) [
        | inl e ↦ inl (
          (fd, ctx) ∷ erase fd current,
          ap insert h ∙ if_true _ _ e,
          subst (Insertable exited) (sym h) e,
          replaced fd ctx current other,
        )
        | inr e ↦ inr (ap insert h ∙ if_false _ _ e, old, h, e)
      ]
    ]

-- After a removal the descriptor has no interpreter, and any other keeps its own.
pub remove_interpreter_lem :
    (fd other : ℕ) (current : Interpreters)
    → find_interpreter other (remove_interpreter fd current)
      ≡ (if other == fd then none else find_interpreter other current)
unfolding remove_interpreter
remove_interpreter_lem fd other current = elim (Bool-cases (other == fd)) [
  | inl e ↦
      subst (λ (d : ℕ). find_interpreter d (erase fd current) ≡ none) (sym ((==_iff other fd).0 e))
        (find-erase fd current)
      ∙ sym (if_true _ _ e)
  | inr e ↦
      find-erase_other fd other current (λ q. absurd (ground (arith, q))) ∙ sym (if_false _ _ e)
]
