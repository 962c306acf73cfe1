-- ===== src/Samples/Buffers.antt =====
-- The theorems at concrete inputs: lexical pads, dictionaries and buffers.
use building_programming_lan.Prelude.{
  ◌≡◌, ◌≢◌, ◌-◌, ◌++◌, refl, true, false, none, some, List, [], ◌∷◌, length, take, arith, ◌&&◌,
  if◌then◌else◌, ltb, leb, ◌↔◌,
}
use building_programming_lan.Prelude.Int.{ℤ, pos, negsuc}
use building_programming_lan.Bytes.{find, starts_with, Bytes, codes, eq_bytes, starts_with}
use building_programming_lan.Bytes.Decimal.{digits}
use building_programming_lan.Bytes.Search.{Lacks}
use building_programming_lan.Outcome.{ok}
use building_programming_lan.Value.{
  Value, int32, bool, octets, empty, member, value, blocked, waiting_for_write, static_string,
  match_until_terminator, Condition,
}
use building_programming_lan.Pad.{PadStore, get, set}
use building_programming_lan.Pad.Scope.{resolve, same_cell, get-set}
use building_programming_lan.Io.Lookahead.Chosen.{Chosen, execute-Chosen}
use building_programming_lan.Compute.{print_int, dictionary_get, dictionary_set}
use building_programming_lan.Compute
use building_programming_lan.Io.Context.{IoContext, new_io, mismatch, need_read}
use building_programming_lan.Io.ReadStatic
use building_programming_lan.Io.ReadStatic.{execute-handle_read}
use building_programming_lan.Io.ReadInt32
use building_programming_lan.Io.ReadInt32.{feed, flatten, feed-flatten, read-write_int32}
use building_programming_lan.Io.ReadAscii
use building_programming_lan.Io.ReadAscii.{is_digit, AllDigits, nine_cuts, read-print_int}
use building_programming_lan.Io.Lookahead
use building_programming_lan.Io.Lookahead.{extend, ready-execute, mismatch-extend}
use building_programming_lan.Io.Write.{write_static_octets, int32_bytes}
use building_programming_lan.Io.Write.Drain.{drain, total, drain_in_order}

-- A pad that binds `a`, and a child of it that is empty.
abbrev two_pads : PadStore
two_pads =
    record { pad = empty; parent = some 0 }
    ∷ record { pad = member (codes "a") (int32 (pos 1)) empty; parent = none }
    ∷ []

abbrev seven : Value
seven = int32 (pos 7)

get-set_example : get (set two_pads 1 (codes "a") seven).0 0 (codes "a") ≡ (
    if same_cell (resolve two_pads 1 (codes "a")) (resolve two_pads 0 (codes "a"))
      && eq_bytes (codes "a") (codes "a")
    then seven
    else get two_pads 0 (codes "a"))
get-set_example = get-set two_pads 1 0 (codes "a") (codes "a") seven

two_and_three : Compute.add (int32 (pos 2)) (int32 (pos 3)) ≡ ok (int32 (pos 5))
unfolding Compute.add
two_and_three = refl

drain_in_order_example :
    (ctx : IoContext) × (drain (codes "abcde") (2 ∷ 2 ∷ []) new_io
      ≡ ok (take (total (2 ∷ 2 ∷ [])) (codes "abcde"), ctx))
    × ((write_static_octets (codes "abcde") ctx).0 ≡ (
        if leb (length (codes "abcde")) (total (2 ∷ 2 ∷ []))
        then value (int32 (pos 0))
        else blocked waiting_for_write))
drain_in_order_example = drain_in_order (codes "abcde") 2 (2 ∷ []) (omega arith)

abbrev conditions : List (Condition × Bytes)
conditions =
    (static_string (codes "AB"), codes "first") ∷ (static_string (codes "C"), codes "second") ∷ []

abbrev reading : IoContext
reading = record new_io { buffer = codes "XY" }

no_condition : Lookahead.execute conditions reading ≡ mismatch
unfolding Lookahead.execute Lookahead.match_condition eq_bytes
no_condition = refl

mismatch-extend_example : Lookahead.execute conditions (extend reading (codes "AB")) ≡ mismatch
mismatch-extend_example = mismatch-extend conditions reading (codes "AB") refl no_condition

-- The first condition does not match, and the other two do.
abbrev choices : List (Condition × Bytes)
choices =
    (static_string (codes "AB"), codes "first")
    ∷ (match_until_terminator (codes ";"), codes "second")
    ∷ (static_string (codes "X"), codes "third")
    ∷ []

abbrev line : IoContext
line = record new_io { buffer = codes "XY;" }

second_chosen : Lookahead.execute choices line ≡ value (octets (codes "second"))
unfolding Lookahead.execute Lookahead.match_condition eq_bytes find starts_with
second_chosen = refl

execute-Chosen_example :
    (Lookahead.execute choices line ≡ value (octets (codes "second")))
    ↔ Chosen line choices (codes "second")
execute-Chosen_example = execute-Chosen choices line (codes "second")

ready-execute_example :
    (Lookahead.ready_to_evaluate conditions reading ≡ true)
    ↔ (Lookahead.execute conditions reading ≢ need_read)
ready-execute_example = ready-execute conditions reading

abbrev minus_two : ℤ
minus_two = negsuc 1

word_bytes :
    flatten ((254 ∷ 255 ∷ []) ∷ (255 ∷ 255 ∷ 9 ∷ []) ∷ []) ≡ int32_bytes minus_two ++ 9 ∷ []
unfolding int32_bytes flatten
word_bytes = refl

read-write_int32_example :
    ReadInt32.execute (feed ((254 ∷ 255 ∷ []) ∷ (255 ∷ 255 ∷ 9 ∷ []) ∷ []) new_io)
    ≡ value (int32 minus_two)
read-write_int32_example =
    read-write_int32 minus_two ((254 ∷ 255 ∷ []) ∷ (255 ∷ 255 ∷ 9 ∷ []) ∷ []) (9 ∷ []) refl
      word_bytes

feed-flatten_example :
    (feed ((1 ∷ 2 ∷ []) ∷ (3 ∷ []) ∷ []) new_io).buffer
    ≡ [] ++ take (4 - 0) (flatten ((1 ∷ 2 ∷ []) ∷ (3 ∷ []) ∷ []))
feed-flatten_example = feed-flatten ((1 ∷ 2 ∷ []) ∷ (3 ∷ []) ∷ []) new_io (omega arith)

no_nine : Lacks b'9' (print_int (pos 25))
unfolding print_int digits
no_nine = (ground arith, (ground arith, tt))

space_ends : is_digit 32 ≡ false
unfolding is_digit
space_ends = refl

read-print_int_example :
    (r : IoContext) × (ReadAscii.handle_read new_io (print_int (pos 25) ++ 32 ∷ codes "x")
      ≡ (r, length (print_int (pos 25))))
    × ((ReadAscii.execute false r).0 ≡ value (int32 (pos 25)))
read-print_int_example = read-print_int 25 32 (codes "x") (omega arith) no_nine space_ends

two_digits : AllDigits (codes "12")
unfolding is_digit
two_digits = (refl, (refl, tt))

nine_cuts_example :
    ReadAscii.handle_read new_io (codes "12" ++ b'9' ∷ codes "3 ")
    ≡ (record new_io { buffer = codes "12"; ready = true }, length (codes "12"))
nine_cuts_example = nine_cuts (codes "12") (codes "3 ") two_digits

execute-handle_read_example :
    ((ReadStatic.handle_read (codes "OK") new_io (codes "OK!")).1
      ≡ (if ltb (length (codes "OK!")) (length (codes "OK")) then 0 else length (codes "OK")))
    × (ReadStatic.execute (codes "OK") (ReadStatic.handle_read (codes "OK") new_io (codes "OK!")).0
        ≡ (if ltb (length (codes "OK!")) (length (codes "OK"))
            then need_read
            else if starts_with (codes "OK") (codes "OK!")
            then value (bool true)
            else mismatch))
execute-handle_read_example =
    execute-handle_read (codes "OK") (codes "OK!") (ground arith, (ground arith, tt))
