-- ===== src/Compute/Laws.antt =====
-- What the computing operations do on every pair of operands, and dictionaries as maps.
use building_programming_lan.Prelude.{◌≡◌, true, none, arith, if◌then◌else◌}
use building_programming_lan.Prelude.Int.{ℤ, in_int32}
use building_programming_lan.Bytes.{Bytes, eq_bytes, eq_bytes_iff}
use building_programming_lan.Outcome.{ok}
use building_programming_lan.Value.{Value, int32, dictionary, runtime_error, Members, empty, member}
use building_programming_lan.Pad.{find_member}
use building_programming_lan.Compute.{add, subtract, dictionary_get, dictionary_set, without_member}

find-without :
    (k j : Bytes) (m : Members)
    → find_member j (without_member k m) ≡ (if eq_bytes k j then none else find_member j m)
unfolding find_member without_member
find-without k j empty = ground arith
find-without k j (member i v m) =
    ground (arith, find-without k j m, eq_bytes_iff i k, eq_bytes_iff i j, eq_bytes_iff k j)

-- What may be stored in a dictionary: anything but an error.
abbrev pub IsStorable : Value → Type 0
IsStorable (runtime_error e) = ⊥
IsStorable _ = Unit {0}

-- After DictionarySet of a key with a value that is no error, DictionaryGet gives the new value
-- for that key and for every other key what it gave before.
pub dictionary_get-set :
    (k j : Bytes) (m : Members) (v : Value)
    → IsStorable v
    → dictionary_get j (dictionary_set k (dictionary m) v)
      ≡ (if eq_bytes k j then v else dictionary_get j (dictionary m))
unfolding dictionary_get dictionary_set find_member
dictionary_get-set k j m (runtime_error e) h = absurd h
dictionary_get-set k j m v h = ground (arith, find-without k j m, eq_bytes_iff k j)

-- If a sum of two integers does not overflow and the first is in the range of int32_t, Subtract
-- of the second from it gives the first.
pub subtract-add :
    (a b c : ℤ)
    → add (int32 a) (int32 b) ≡ ok (int32 c)
    → in_int32 a ≡ true
    → subtract (int32 c) (int32 b) ≡ ok (int32 a)
unfolding add subtract
subtract-add a b c h k = ground arith
