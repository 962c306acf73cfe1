-- ===== src/Codegen/Names.antt =====
-- codegen/typemapping.cpp: what the identifiers of states and messages are made of.
use building_programming_lan.Prelude.{
  ℕ, ◌≡◌, ◌↔◌, ◌⊎◌, arith, refl, true, false, [], ◌∷◌, Bool-cases, if_true, if_false, inl, inr, ap,
  sym, ◌∙◌, subst,
}
use building_programming_lan.Bytes.{Bytes}
use building_programming_lan.Codegen.{
  CharacterClasses, identifier_char, state_chars, not_digit_first, state_name_to_identifier,
}

module _ (classes : CharacterClasses) where
  -- All letters, digits and underscores.
  unfoldable pub IdentifierChars : Bytes → Type 0
  IdentifierChars [] = Unit {0}
  IdentifierChars (c ∷ rest) = ((classes.is_alnum c ≡ true) ⊎ (c ≡ 95)) × IdentifierChars rest

  -- What C++ takes for an identifier or a keyword, or nothing.
  unfoldable pub IdentifierForm : Bytes → Type 0
  unfolding IdentifierChars
  IdentifierForm [] = Unit {0}
  IdentifierForm (c ∷ rest) = (classes.is_digit c ≡ false) × IdentifierChars (c ∷ rest)

  kept_char :
      (c : ℕ) → (identifier_char classes c ≡ true) ↔ ((classes.is_alnum c ≡ true) ⊎ (c ≡ 95))
  unfolding identifier_char
  kept_char c = ground arith

  state_chars-IdentifierChars : (s : Bytes) → IdentifierChars (state_chars classes s)
  unfolding IdentifierChars state_chars
  state_chars-IdentifierChars [] = tt
  state_chars-IdentifierChars (c ∷ rest) = elim (Bool-cases (identifier_char classes c)) [
    | inl e ↦
        subst IdentifierChars
          (sym (if_true (c ∷ state_chars classes rest) (state_chars classes rest) e))
          ((kept_char c).0 e, state_chars-IdentifierChars rest)
    | inr e ↦
        subst IdentifierChars
          (sym (if_false (c ∷ state_chars classes rest) (state_chars classes rest) e))
          (state_chars-IdentifierChars rest)
  ]

  kept : (s : Bytes) → IdentifierChars s → state_chars classes s ≡ s
  unfolding IdentifierChars state_chars
  kept [] h = refl
  kept (c ∷ rest) (e, h) =
      if_true (c ∷ state_chars classes rest) (state_chars classes rest) ((kept_char c).1 e)
      ∙ ap (◌∷◌ c) (kept rest h)

  not_digit_first-IdentifierForm :
      classes.is_digit 95 ≡ false
      → (s : Bytes) → IdentifierChars s
      → IdentifierForm (not_digit_first classes s)
  unfolding IdentifierChars IdentifierForm not_digit_first
  not_digit_first-IdentifierForm u [] h = tt
  not_digit_first-IdentifierForm u (c ∷ rest) h = elim (Bool-cases (classes.is_digit c)) [
    | inl e ↦ subst IdentifierForm (sym (if_true (95 ∷ c ∷ rest) (c ∷ rest) e)) (u, (inr refl, h))
    | inr e ↦ subst IdentifierForm (sym (if_false (95 ∷ c ∷ rest) (c ∷ rest) e)) (e, h)
  ]

  unchanged : (s : Bytes) → IdentifierForm s → not_digit_first classes (state_chars classes s) ≡ s
  unfolding IdentifierForm not_digit_first
  unchanged [] h = ap (not_digit_first classes) (kept [] tt)
  unchanged (c ∷ rest) (d, chars) =
      ap (not_digit_first classes) (kept (c ∷ rest) chars) ∙ if_false (95 ∷ c ∷ rest) (c ∷ rest) d

  -- Where the underscore is not a digit: the identifier of a state is made of letters, digits and
  -- underscores and does not begin with a digit, or is empty; and the names that are their own
  -- identifiers are exactly those of that form.
  pub state_name_to_identifier-IdentifierForm :
      classes.is_digit 95 ≡ false
      → (s : Bytes)
      → IdentifierForm (state_name_to_identifier classes s)
        × ((state_name_to_identifier classes s ≡ s) ↔ IdentifierForm s)
  unfolding state_name_to_identifier
  state_name_to_identifier-IdentifierForm u s =
      let valid =
        not_digit_first-IdentifierForm u (state_chars classes s) (state_chars-IdentifierChars s) in
      (valid, (λ e. subst IdentifierForm e valid, unchanged s))
