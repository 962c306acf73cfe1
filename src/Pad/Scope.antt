-- ===== src/Pad/Scope.antt =====
-- Lexical scope: which pad a name is bound in, and what reads and writes do to that one cell.
use building_programming_lan.Prelude.{
  ℕ, ◌<◌, ◌≡◌, refl, Bool, true, false, ◌&&◌, Option, none, some, [], ◌∷◌, length, arith, ◌==◌,
  if◌then◌else◌,
}
use building_programming_lan.Bytes.{Bytes, eq_bytes, eq_bytes_iff}
use building_programming_lan.Value.{Value, Members, empty, member}
use building_programming_lan.Pad.{
  PadStore, find_member, assign_member, insert_member, get, set, initialize, initialize_global,
  make_pad,
}

-- The pad that binds a name seen from the pad `a`: the nearest one up the parents.
unfoldable pub resolve : PadStore → ℕ → Bytes → Option ℕ
unfolding find_member
resolve [] a name = none
resolve (p ∷ older) a name = elim (a == length older) [
  | true ↦ elim (find_member name p.pad) [
    | some v ↦ some (length older)
    | none ↦ elim p.parent [ some q ↦ resolve older q name | none ↦ none ]
  ]
  | false ↦ resolve older a name
]

abbrev pub same_cell : Option ℕ → Option ℕ → Bool
same_cell (some x) (some y) = x == y
same_cell none y = false
same_cell (some x) none = false

-- Every parent is older than its child.
abbrev pub IsOlder : Option ℕ → ℕ → Type 0
IsOlder none n = Unit {0}
IsOlder (some q) n = q < n

abbrev pub WellFormed : PadStore → Type 0
WellFormed [] = Unit {0}
WellFormed (p ∷ older) = IsOlder p.parent (length older) × WellFormed older

find-assign :
    (n m : Bytes) (w : Value) (ms : Members)
    → find_member m (assign_member n w ms)
      ≡ (elim (find_member m ms) [ none ↦ none | some v ↦ some (if eq_bytes n m then w else v) ])
unfolding find_member assign_member
find-assign n m w empty = refl
find-assign n m w (member k v ms) =
    ground (arith, find-assign n m w ms, eq_bytes_iff k n, eq_bytes_iff k m, eq_bytes_iff n m)

pub find-insert :
    (n m : Bytes) (w : Value) (ms : Members)
    → find_member m (insert_member n w ms)
      ≡ (elim (find_member m ms) [ some v ↦ some v | none ↦ if eq_bytes n m then some w else none ])
unfolding find_member insert_member
find-insert n m w ms = ground (arith, eq_bytes_iff n m)

length-set : (s : PadStore) (a : ℕ) (n : Bytes) (w : Value) → length (set s a n w).0 ≡ length s
unfolding set
length-set [] a n w = refl
length-set (p ∷ older) a n w = grind (arith, λ (q : ℕ). length-set older q n w)

resolve-lt : (s : PadStore) (a : ℕ) (n : Bytes) (r : ℕ) → resolve s a n ≡ some r → r < length s
unfolding resolve
resolve-lt [] a n r h = absurd (ground arith)
resolve-lt (p ∷ older) a n r h = grind (arith, λ (q : ℕ). resolve-lt older q n r)

-- Writing does not move a binding.
pub resolve-set :
    (s : PadStore) (a b : ℕ) (n m : Bytes) (w : Value) → resolve (set s a n w).0 b m ≡ resolve s b m
unfolding resolve set
resolve-set [] a b n m w = refl
resolve-set (p ∷ older) a b n m w = grind (
  arith,
  find-assign n m w p.pad,
  λ (q : ℕ). length-set older q n w,
  λ (q r : ℕ). resolve-set older q r n m w,
)

-- After a write of the name `n` from the pad `a`, a read of `m` from `b` gives the new value if
-- both names are the same and resolve to the same pad, and otherwise what it gave before.
pub get-set :
    (s : PadStore) (a b : ℕ) (n m : Bytes) (w : Value)
    → get (set s a n w).0 b m
      ≡ (if same_cell (resolve s a n) (resolve s b m) && eq_bytes n m then w else get s b m)
unfolding resolve set get
get-set [] a b n m w = refl
get-set (p ∷ older) a b n m w = grind (
  arith,
  find-assign n m w p.pad,
  eq_bytes_iff n m,
  λ (q : ℕ). length-set older q n w,
  λ (q r : ℕ). get-set older q r n m w,
  λ (q r : ℕ) (k : Bytes). resolve-lt older q k r,
)

-- A write returns the value that a read of the name gave before it, and its error where there is
-- no such name.
pub old-set : (s : PadStore) (a : ℕ) (n : Bytes) (w : Value) → (set s a n w).1 ≡ get s a n
unfolding set get
old-set [] a n w = refl
old-set (p ∷ older) a n w = grind (arith, λ (q : ℕ). old-set older q n w)

-- The binding in the pad itself.
unfoldable pub own : PadStore → ℕ → Bytes → Option Value
unfolding find_member
own [] a n = none
own (p ∷ older) a n = if a == length older then find_member n p.pad else own older a n

pub length-initialize :
    (s : PadStore) (a : ℕ) (n : Bytes) (w : Value) → length (initialize s a n w) ≡ length s
unfolding initialize
length-initialize [] a n w = refl
length-initialize (p ∷ older) a n w = ground (arith, length-initialize older a n w)

-- After an initialization in a pad of the store, a read from that pad gives the value that the
-- pad itself already bound, if any, and otherwise the new one: the first initialization wins, and
-- shadows the parents.
pub get-initialize :
    (s : PadStore) (a : ℕ) (n : Bytes) (w : Value)
    → a < length s
    → get (initialize s a n w) a n ≡ (elim (own s a n) [ some old ↦ old | none ↦ w ])
unfolding get initialize own
get-initialize [] a n w h = absurd (omega arith)
get-initialize (p ∷ older) a n w h = ground (
  arith,
  find-insert n n w p.pad,
  eq_bytes_iff n n,
  length-initialize older a n w,
  get-initialize older a n w,
)

length-initialize_global :
    (s : PadStore) (a : ℕ) (n : Bytes) (w : Value) → length (initialize_global s a n w) ≡ length s
unfolding initialize_global
length-initialize_global [] a n w = refl
length-initialize_global (p ∷ older) a n w =
    grind (arith, λ (q : ℕ). length-initialize_global older q n w)

-- In a store whose parents are older than their children, after a global initialization from a
-- pad of the store a read from that pad gives what it gave before if the name resolved, and
-- otherwise the new value.
pub get-initialize_global :
    (s : PadStore) (a : ℕ) (n : Bytes) (w : Value)
    → WellFormed s
    → a < length s
    → get (initialize_global s a n w) a n ≡ (elim (resolve s a n) [ some r ↦ get s a n | none ↦ w ])
unfolding get initialize_global resolve
get-initialize_global [] a n w f h = absurd (omega arith)
get-initialize_global (p ∷ older) a n w f h = grind (
  arith,
  find-insert n n w p.pad,
  eq_bytes_iff n n,
  λ (q : ℕ). length-initialize_global older q n w,
  λ (q : ℕ). get-initialize_global older q n w f.1,
)

-- A new pad reads as its parent does, and each pad that was in the store as before.
pub get-make_pad :
    (s : PadStore) (q b : ℕ) (n : Bytes)
    → b < length s
    → (get (make_pad s (some q)) (length s) n ≡ get s q n)
      × (get (make_pad s (some q)) b n ≡ get s b n)
unfolding get make_pad find_member
get-make_pad s q b n h = (ground arith, ground arith)

-- A write keeps every parent older than its child.
pub set-WellFormed :
    (s : PadStore) (a : ℕ) (n : Bytes) (w : Value) → WellFormed s → WellFormed (set s a n w).0
unfolding set
set-WellFormed [] a n w f = tt
set-WellFormed (p ∷ older) a n w f =
    grind (arith, λ (q : ℕ). length-set older q n w, λ (q : ℕ). set-WellFormed older q n w f.1)

pub initialize-WellFormed :
    (s : PadStore) (a : ℕ) (n : Bytes) (w : Value) → WellFormed s → WellFormed (initialize s a n w)
unfolding initialize
initialize-WellFormed [] a n w f = tt
initialize-WellFormed (p ∷ older) a n w f =
    ground (arith, length-initialize older a n w, initialize-WellFormed older a n w f.1)

pub initialize_global-WellFormed :
    (s : PadStore) (a : ℕ) (n : Bytes) (w : Value)
    → WellFormed s
    → WellFormed (initialize_global s a n w)
unfolding initialize_global
initialize_global-WellFormed [] a n w f = tt
initialize_global-WellFormed (p ∷ older) a n w f = grind (
  arith,
  λ (q : ℕ). length-initialize_global older q n w,
  λ (q : ℕ). initialize_global-WellFormed older q n w f.1,
)
