-- ===== src/Parser/Shorter.antt =====
-- parser/support/recursiveparser.hpp: a match leaves fewer tokens, and the recursions end.
pub mod Types
pub mod Parts
pub mod Protocol
use building_programming_lan.Prelude.{
  ℕ, zero, suc, ◌≤◌, ◌<◌, ◌≡◌, refl, Option, none, some, List, [], ◌∷◌, length, arith, subst,
  some-injective,
}
use building_programming_lan.Parser.{
  Token, comma, Tokens, Parse, matched, no_match, out_of_fuel, ◌>>>◌, take_token, maybe, either,
  prepend, many, after_comma, many_separated, at_least_one,
}

-- Not out of fuel, and fewer than `n` tokens left after a match.
abbrev pub Shorter {ℓ} : {A : Type ℓ} → ℕ → Parse A → Type 0
Shorter n (matched a rest) = length rest < n
Shorter n no_match = Unit {0}
Shorter n out_of_fuel = ⊥

module _ {ℓ} {A : Type ℓ} where
  pub Shorter-mono : (m n : ℕ) (p : Parse A) → m ≤ n → Shorter m p → Shorter n p
  Shorter-mono m n (matched a rest) h k = omega arith
  Shorter-mono m n no_match h k = tt
  Shorter-mono m n out_of_fuel h k = k

  pub Shorter-bind {κ} :
      {B : Type κ} (m n : ℕ) (p : Parse A) (next : A → Tokens → Parse B)
      → Shorter m p
      → ((a : A) (rest : Tokens) → length rest < m → Shorter n (next a rest))
      → Shorter n (p >>> next)
  Shorter-bind m n (matched a rest) next h k = k a rest h
  Shorter-bind m n no_match next h k = tt
  Shorter-bind m n out_of_fuel next h k = absurd h

  pub Shorter-take :
      (accept : Token → Option A) (ts : Tokens) → Shorter (length ts) (take_token accept ts)
  unfolding take_token
  Shorter-take accept [] = tt
  Shorter-take accept (t ∷ rest) =
      elim (accept t)
        as (λ (o : Option A).
          Shorter (length (t ∷ rest)) (elim o [ none ↦ no_match | some a ↦ matched a rest ])) [
            | none ↦ tt
            | some a ↦ omega arith
          ]

  -- One token, and then what follows it.
  pub Shorter-then {κ} :
      {B : Type κ} (n : ℕ) (accept : Token → Option A) (ts : Tokens) (next : A → Tokens → Parse B)
      → ((a : A) (rest : Tokens) → length rest < length ts → Shorter n (next a rest))
      → Shorter n (take_token accept ts >>> next)
  Shorter-then n accept ts next =
      Shorter-bind (length ts) n (take_token accept ts) next (Shorter-take accept ts)

  pub Shorter-maybe :
      (p : Parse A) (ts : Tokens) → Shorter (length ts) p → Shorter (suc (length ts)) (maybe p ts)
  unfolding maybe
  Shorter-maybe (matched a rest) ts h = omega arith
  Shorter-maybe no_match ts h = omega arith
  Shorter-maybe out_of_fuel ts h = h

  pub Shorter-either : (n : ℕ) (p q : Parse A) → Shorter n p → Shorter n q → Shorter n (either p q)
  unfolding either
  Shorter-either n (matched a rest) q h k = h
  Shorter-either n no_match q h k = k
  Shorter-either n out_of_fuel q h k = h

  Shorter-prepend : (n : ℕ) (a : A) (p : Parse (List A)) → Shorter n p → Shorter n (prepend a p)
  unfolding prepend
  Shorter-prepend n a (matched xs rest) h = h
  Shorter-prepend n a no_match h = tt
  Shorter-prepend n a out_of_fuel h = h

  pub Shorter-at_least_one : (n : ℕ) (p : Parse (List A)) → Shorter n p → Shorter n (at_least_one p)
  unfolding at_least_one
  Shorter-at_least_one n (matched [] rest) h = tt
  Shorter-at_least_one n (matched (a ∷ xs) rest) h = h
  Shorter-at_least_one n no_match h = tt
  Shorter-at_least_one n out_of_fuel h = h

comma_shorter : (ts more : Tokens) → after_comma ts ≡ some more → length more < length ts
unfolding after_comma
comma_shorter (comma ∷ rest) more e =
    subst (λ (r : Tokens). length r < length (comma ∷ rest)) (some-injective e) (omega arith)
comma_shorter _ more e = cc

-- A parser that progresses on inputs of fewer than `n` tokens.
abbrev pub Progresses {ℓ} : {A : Type ℓ} → ℕ → (Tokens → Parse A) → Type 0
Progresses n p = (ts : Tokens) → length ts < n → Shorter (length ts) (p ts)

module _ {ℓ} {A : Type ℓ} (n : ℕ) (p : Tokens → Parse A) (progress : Progresses n p) where
  many_step :
      (f : ℕ) (ts : Tokens) (r : Parse A)
      → length ts < suc f
      → Shorter (length ts) r
      → ((more : Tokens)
          → length more < f
          → length more < length ts
          → Shorter (suc (length more)) (many f p more))
      → Shorter (suc (length ts)) (elim r [
        | matched a rest ↦ prepend a (many f p rest)
        | no_match ↦ matched [] ts
        | out_of_fuel ↦ out_of_fuel
      ])
  many_step f ts (matched a rest) h k l = Shorter-prepend _ a (many f p rest) (
      Shorter-mono (suc (length rest)) (suc (length ts)) (many f p rest) (omega arith)
        (l rest (omega arith) k))
  many_step f ts no_match h k l = omega arith
  many_step f ts out_of_fuel h k l = k

  pub Shorter-many :
      (f : ℕ) (ts : Tokens)
      → length ts < f
      → length ts < n
      → Shorter (suc (length ts)) (many f p ts)
  unfolding many
  Shorter-many zero ts h k = absurd (omega arith)
  Shorter-many (suc f) ts h k =
      many_step f ts (p ts) h (progress ts k) λ more l m. Shorter-many f more l (omega arith)

  separated_step :
      (f : ℕ) (ts : Tokens) (a : A) (rest : Tokens) (o : Option Tokens)
      → after_comma rest ≡ o
      → length ts < suc f
      → length rest < length ts
      → ((more : Tokens)
          → length more < f
          → length more < length ts
          → Shorter (suc (length more)) (many_separated f p more))
      → Shorter (suc (length ts)) (elim o [
        | none ↦ matched (a ∷ []) rest
        | some more ↦ prepend a (many_separated f p more)
      ])
  separated_step f ts a rest none e h k l = omega arith
  separated_step f ts a rest (some more) e h k l =
      let shorter = comma_shorter rest more e in
      Shorter-prepend _ a (many_separated f p more) (
        Shorter-mono (suc (length more)) (suc (length ts)) (many_separated f p more) (omega arith)
          (l more (omega arith) (omega arith)))

  many_separated_step :
      (f : ℕ) (ts : Tokens) (r : Parse A)
      → length ts < suc f
      → Shorter (length ts) r
      → ((more : Tokens)
          → length more < f
          → length more < length ts
          → Shorter (suc (length more)) (many_separated f p more))
      → Shorter (suc (length ts)) (elim r [
        | matched a rest ↦ elim (after_comma rest) [
          | none ↦ matched (a ∷ []) rest
          | some more ↦ prepend a (many_separated f p more)
        ]
        | no_match ↦ matched [] ts
        | out_of_fuel ↦ out_of_fuel
      ])
  many_separated_step f ts (matched a rest) h k l =
      separated_step f ts a rest (after_comma rest) refl h k l
  many_separated_step f ts no_match h k l = omega arith
  many_separated_step f ts out_of_fuel h k l = k

  pub Shorter-many_separated :
      (f : ℕ) (ts : Tokens)
      → length ts < f
      → length ts < n
      → Shorter (suc (length ts)) (many_separated f p ts)
  unfolding many_separated
  Shorter-many_separated zero ts h k = absurd (omega arith)
  Shorter-many_separated (suc f) ts h k =
      many_separated_step f ts (p ts) h (progress ts k)
        λ more l m. Shorter-many_separated f more l (omega arith)
