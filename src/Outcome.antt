-- ===== src/Outcome.antt =====
-- What a call does where C++ gives it no value: an exception that nothing catches, a failed `assert`,
-- or undefined behaviour.
use building_programming_lan.Prelude.{◌≡◌, refl, Option, none, some}

pub data Fault : Type 0 where
  bad_variant_access out_of_range assertion_failed null_dereference : Fault
  signed_overflow divergence empty_stack : Fault

pub data Outcome {ℓ} (A : Type ℓ) : Type ℓ where
  ok : A → Outcome A
  fault : Fault → Outcome A

-- A step that faults ends the sequence: the steps after it are not taken.
infixl 5 ◌>>=◌
abbrev pub ◌>>=◌ {ℓ κ} : {A : Type ℓ} → {B : Type κ} → Outcome A → (A → Outcome B) → Outcome B
fault why >>= next = fault why
ok x >>= next = next x

-- The facts about sequences that ended well.
module _ {ℓ κ} {A : Type ℓ} {B : Type κ} where
  pub bind_parts :
      (first : Outcome A) (next : A → Outcome B) {y : B}
      → (first >>= next) ≡ ok y
      → (x : A) × (first ≡ ok x) × (next x ≡ ok y)
  bind_parts (fault why) next e = cc
  bind_parts (ok x) next e = (x, refl, e)

  pub bind_ok :
      {first : Outcome A} {x : A} (next : A → Outcome B) → first ≡ ok x → (first >>= next) ≡ next x
  bind_ok next e = rw e

pub ok-injective {ℓ} : {A : Type ℓ} {x y : A} → ok x ≡ ok y → x ≡ y
ok-injective e = cc

-- The result of a function that returns a `std::optional`: `std::nullopt` ends the sequence as well.
infixl 5 ◌>>?◌
abbrev pub ◌>>?◌ {ℓ κ} :
    {A : Type ℓ} → {B : Type κ} → Outcome (Option A) → (A → Outcome (Option B)) → Outcome (Option B)
fault why >>? next = fault why
ok none >>? next = ok none
ok (some x) >>? next = next x

pub found_parts {ℓ κ} :
    {A : Type ℓ} {B : Type κ} (first : Outcome (Option A)) (next : A → Outcome (Option B)) {y : B}
    → (first >>? next) ≡ ok (some y)
    → (x : A) × (first ≡ ok (some x)) × (next x ≡ ok (some y))
found_parts (fault why) next e = cc
found_parts (ok none) next e = cc
found_parts (ok (some x)) next e = (x, refl, e)

pub found-injective {ℓ} : {A : Type ℓ} {x y : A} → ok (some x) ≡ ok (some y) → x ≡ y
found-injective e = cc
