-- ===== src/Compute.antt =====
-- The operations that return a value at once: operation/{add, subtract, multiply, eq, lesserequal,
-- inttoascii, dictionary*, dynamiclist, opsequence}. Each `std::visit` picks the overload by the two
-- alternatives; a `bool` never takes the `int32_t` overload, since the template fits it exactly.
pub mod Laws
use building_programming_lan.Prelude.{
  ℕ, suc, Bool, true, false, not, Option, none, some, List, [], ◌∷◌, ◌++◌, get_last?, if◌then◌else◌,
}
use building_programming_lan.Prelude.Int.{ℤ, pos, negsuc, ◌+ℤ◌, ◌-ℤ◌, ◌*ℤ◌, leb_ℤ, eq_ℤ, in_int32}
use building_programming_lan.Bytes.{Bytes, eq_bytes}
use building_programming_lan.Bytes.Decimal.{decimal}
use building_programming_lan.Outcome.{Outcome, ok, fault, signed_overflow}
use building_programming_lan.Value.{
  Value, bool, int32, dictionary, callable, runtime_error, control_flow, list, octets, Members,
  empty, member, type_error, name_error, of_list,
}
use building_programming_lan.Pad.{find_member}

-- The overload set that Add, Subtract, Multiply, Eq and LesserEqual share: two integers compute, an
-- error or an instruction on the left comes first, one on the right only beside an integer.
unfoldable pub int_operation : (ℤ → ℤ → Outcome Value) → Value → Value → Outcome Value
int_operation f (int32 a) (int32 b) = f a b
int_operation f (int32 a) (runtime_error e) = ok (runtime_error e)
int_operation f (int32 a) (control_flow c) = ok (control_flow c)
int_operation f (runtime_error e) rhs = ok (runtime_error e)
int_operation f (control_flow c) rhs = ok (control_flow c)
int_operation f lhs rhs = ok (runtime_error type_error)

-- An `int32_t` result; overflow is undefined.
unfoldable pub checked : ℤ → Outcome Value
checked z = if in_int32 z then ok (int32 z) else fault signed_overflow

unfoldable pub add : Value → Value → Outcome Value
unfolding int_operation checked ◌+ℤ◌
add = int_operation (λ a b. checked (b +ℤ a))

unfoldable pub subtract : Value → Value → Outcome Value
unfolding int_operation checked ◌-ℤ◌
subtract = int_operation (λ a b. checked (a -ℤ b))

unfoldable pub multiply : Value → Value → Outcome Value
unfolding int_operation checked ◌*ℤ◌
multiply = int_operation (λ a b. checked (b *ℤ a))

unfoldable pub eq : Value → Value → Outcome Value
unfolding int_operation
eq = int_operation (λ a b. ok (bool (eq_ℤ b a)))

unfoldable pub lesser_equal : Value → Value → Outcome Value
unfolding int_operation
lesser_equal = int_operation (λ a b. ok (bool (leb_ℤ a b)))

-- `os << v`
unfoldable pub print_int : ℤ → Bytes
unfolding decimal
print_int (pos n) = decimal n
print_int (negsuc n) = b'-' ∷ decimal (suc n)

unfoldable pub int_to_ascii : Value → Value
unfolding print_int
int_to_ascii (int32 v) = octets (print_int v)
int_to_ascii (runtime_error e) = runtime_error e
int_to_ascii (control_flow c) = control_flow c
int_to_ascii _ = runtime_error type_error

-- The argument is a const reference, so `get(RuntimeError &)` does not take it: an error falls to
-- the template and comes out as a type error.
unfoldable pub dictionary_get : Bytes → Value → Value
unfolding find_member
dictionary_get key (dictionary m) = elim (find_member key m) [
  | some v ↦ v
  | none ↦ runtime_error name_error
]
dictionary_get key _ = runtime_error type_error

-- The loop that copies every member but `key`.
unfoldable pub without_member : Bytes → Members → Members
unfolding eq_bytes
without_member key empty = empty
without_member key (member k v m) =
    if not (eq_bytes k key) then member k v (without_member key m) else without_member key m

unfoldable pub dictionary_set : Bytes → Value → Value → Value
unfolding without_member
dictionary_set key (dictionary m) (runtime_error e) = runtime_error e
dictionary_set key (dictionary m) v = dictionary (member key v (without_member key m))
dictionary_set key (runtime_error e) v = runtime_error e
dictionary_set key _ _ = runtime_error type_error

unfoldable pub dictionary_initialize : Value
dictionary_initialize = dictionary empty

unfoldable pub dynamic_list : List Value → Value
unfolding of_list
dynamic_list args = list (of_list args)

unfoldable pub op_sequence : List Value → Value
op_sequence args = elim (get_last? args) [ none ↦ bool false | some v ↦ v ]
