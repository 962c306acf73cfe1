-- ===== src/Interpreter/Call.antt =====
-- The arguments of a call in interpreter.hpp.
use building_programming_lan.Prelude.{
  ℕ, ◌<◌, ◌≡◌, ◌∙◌, refl, ap, true, false, Bool, Option, none, some, List, [], ◌∷◌, length,
  if◌then◌else◌, arith,
}
use building_programming_lan.Bytes.{Bytes, eq_bytes, eq_bytes_iff}
use building_programming_lan.Outcome.{ok}
use building_programming_lan.Value.{Value}
use building_programming_lan.Pad.{PadStore, find_member, initialize, make_pad}
use building_programming_lan.Pad.Scope.{own, length-initialize, find-insert}
use building_programming_lan.Interpreter.{bind_arguments}

-- The argument that a name stands for: the first one under that name.
pub argument : Bytes → List Bytes → List Value → Option Value
argument n [] args = none
argument n (m ∷ names) [] = none
argument n (m ∷ names) (v ∷ args) = if eq_bytes m n then some v else argument n names args

abbrev pub or_else : Option Value → Option Value → Option Value
or_else (some v) o = some v
or_else none o = o

own-initialize :
    (s : PadStore) (a : ℕ) (m n : Bytes) (w : Value)
    → a < length s
    → own (initialize s a m w) a n ≡ or_else (own s a n) (if eq_bytes m n then some w else none)
unfolding own initialize
own-initialize [] a m n w h = absurd (omega arith)
own-initialize (p ∷ older) a m n w h = ground (
  arith,
  find-insert m n w p.pad,
  eq_bytes_iff m n,
  length-initialize older a m w,
  own-initialize older a m n w,
)

or_else-none : (o : Option Value) → o ≡ or_else o none
or_else-none none = refl
or_else-none (some v) = refl

or_else_if :
    (o p : Option Value) (b : Bool) (v : Value)
    → or_else (or_else o (if b then some v else none)) p ≡ or_else o (if b then some v else p)
or_else_if none p true v = refl
or_else_if none p false v = refl
or_else_if (some w) p b v = refl

bind-own :
    (names : List Bytes) (args : List Value) (a : ℕ) (s : PadStore) (n : Bytes)
    → a < length s
    → (s' : PadStore) × (bind_arguments names (some args) a s ≡ ok s')
      × (own s' a n ≡ or_else (own s a n) (argument n names args))
unfolding bind_arguments argument
bind-own [] args a s n h = (s, refl, or_else-none (own s a n))
bind-own (m ∷ names) [] a s n h = (s, refl, or_else-none (own s a n))
bind-own (m ∷ names) (v ∷ args) a s n h =
    let r =
      bind-own names args a (initialize s a m v) n (omega (arith, h, length-initialize s a m v)) in
    (
      r.0,
      r.1,
      r.2
          ∙ ap (λ (o : Option Value). or_else o (argument n names args))
              (own-initialize s a m n v h)
          ∙ or_else_if (own s a n) (argument n names args) (eq_bytes m n) v,
    )

lt-make_pad : (s : PadStore) (parent : Option ℕ) → length s < length (make_pad s parent)
unfolding make_pad
lt-make_pad s parent = omega arith

own-make_pad :
    (s : PadStore) (parent : Option ℕ) (n : Bytes) → own (make_pad s parent) (length s) n ≡ none
unfolding own make_pad find_member
own-make_pad s parent n = ground arith

-- A call with an argument list, which may be shorter or longer than the names, succeeds in binding
-- them in its new pad, where each name then stands for the first argument under it, and a name
-- without an argument is not bound.
pub bind_arguments_lem :
    (names : List Bytes) (args : List Value) (s : PadStore) (parent : Option ℕ) (n : Bytes)
    → (s' : PadStore) × (bind_arguments names (some args) (length s) (make_pad s parent) ≡ ok s')
      × (own s' (length s) n ≡ argument n names args)
bind_arguments_lem names args s parent n =
    let r = bind-own names args (length s) (make_pad s parent) n (lt-make_pad s parent) in
    (
      r.0,
      r.1,
      r.2 ∙ ap (λ (o : Option Value). or_else o (argument n names args)) (own-make_pad s parent n),
    )
