-- ===== src/Parser/Yields.antt =====
-- parser/support/recursiveparser.hpp: properties of what is matched.
use building_programming_lan.Prelude.{ℕ, zero, suc, ◌≢◌, List, [], ◌∷◌}
use building_programming_lan.Parser.{
  Tokens, Parse, matched, no_match, out_of_fuel, ◌>>>◌, either, prepend, many, at_least_one,
}

-- What is matched has a property.
abbrev pub Yields {ℓ} : {A : Type ℓ} → (A → Type 0) → Parse A → Type 0
Yields P (matched a rest) = P a
Yields P no_match = Unit {0}
Yields P out_of_fuel = Unit {0}

unfoldable pub All : {A : Type 0} → (A → Type 0) → List A → Type 0
All P [] = Unit {0}
All P (a ∷ xs) = P a × All P xs

module _ {A B : Type 0} (P : B → Type 0) where
  pub Yields-bind :
      (Q : A → Type 0) (p : Parse A) (next : A → Tokens → Parse B)
      → Yields Q p
      → ((a : A) (rest : Tokens) → Q a → Yields P (next a rest))
      → Yields P (p >>> next)
  Yields-bind Q (matched a rest) next h k = k a rest h
  Yields-bind Q no_match next h k = tt
  Yields-bind Q out_of_fuel next h k = tt

  pub Yields-then :
      (p : Parse A) (next : A → Tokens → Parse B)
      → ((a : A) (rest : Tokens) → Yields P (next a rest))
      → Yields P (p >>> next)
  Yields-then (matched a rest) next k = k a rest
  Yields-then no_match next k = tt
  Yields-then out_of_fuel next k = tt

module _ {A : Type 0} (P : A → Type 0) where
  pub Yields-either : (p q : Parse A) → Yields P p → Yields P q → Yields P (either p q)
  unfolding either
  Yields-either (matched a rest) q h k = h
  Yields-either no_match q h k = k
  Yields-either out_of_fuel q h k = tt

  Yields-prepend :
      (a : A) (p : Parse (List A)) → P a → Yields (All P) p → Yields (All P) (prepend a p)
  unfolding prepend All
  Yields-prepend a (matched xs rest) h k = (h, k)
  Yields-prepend a no_match h k = tt
  Yields-prepend a out_of_fuel h k = tt

  many-Yields :
      (r : Parse A) (more : Tokens → Parse (List A)) (ts : Tokens)
      → Yields P r
      → ((rest : Tokens) → Yields (All P) (more rest))
      → Yields (All P) (elim r [
        | matched a rest ↦ prepend a (more rest)
        | no_match ↦ matched [] ts
        | out_of_fuel ↦ out_of_fuel
      ])
  unfolding All
  many-Yields (matched a rest) more ts h k = Yields-prepend a (more rest) h (k rest)
  many-Yields no_match more ts h k = tt
  many-Yields out_of_fuel more ts h k = tt

  pub Yields-many :
      (f : ℕ) (p : Tokens → Parse A) (ts : Tokens)
      → ((us : Tokens) → Yields P (p us))
      → Yields (All P) (many f p ts)
  unfolding many
  Yields-many zero p ts h = tt
  Yields-many (suc f) p ts h =
      many-Yields (p ts) (many f p) ts (h ts) λ rest. Yields-many f p rest h

  pub Yields-at_least_one :
      (p : Parse (List A)) → Yields (All P) p → Yields (λ xs. (xs ≢ []) × All P xs) (at_least_one p)
  unfolding at_least_one
  Yields-at_least_one (matched [] rest) h = tt
  Yields-at_least_one (matched (a ∷ xs) rest) h = (cc, h)
  Yields-at_least_one no_match h = tt
  Yields-at_least_one out_of_fuel h = tt
