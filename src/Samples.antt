-- ===== src/Samples.antt =====
-- The theorems at concrete inputs: calls, escapes and evaluation.
mod Buffers
mod Rounds
mod Machines
mod Calls
mod Protocols
mod Collections
mod Sources
use building_programming_lan.Prelude.{
  ℕ, ◌≡◌, ◌≢◌, ◌+◌, ◌++◌, ◌<◌, refl, Bool, true, false, Option, none, some, List, [], ◌∷◌, length,
  take, arith, ◌&&◌, if◌then◌else◌, ltb, leb, ◌⊎◌, inl, inr, ◌↔◌,
}
use building_programming_lan.Prelude.Int.{ℤ, pos, negsuc, in_int32}
use building_programming_lan.Bytes.{Bytes, codes, eq_bytes, starts_with, find}
use building_programming_lan.Bytes.Search.{Lacks}
use building_programming_lan.Outcome.{Outcome, ok}
use building_programming_lan.Value.{
  OpTree, optree, OpTreeNode, node, leaf, child, add, int32_literal, Value, int32, bool, octets,
  list, dictionary, name_error, Members, empty, member, of_list, OperationResult, value, blocked,
  waiting_for_write, static_string, Condition,
}
use building_programming_lan.Pad.{
  PadStore, LexicalPad, get, set, initialize, initialize_global, make_pad,
}
use building_programming_lan.Pad.Scope.{
  resolve, same_cell, own, WellFormed, get-set, old-set, get-initialize, get-initialize_global,
  get-make_pad, set-WellFormed,
}
use building_programming_lan.Compute.{dictionary_get, dictionary_set}
use building_programming_lan.Compute
use building_programming_lan.Compute.Laws.{dictionary_get-set, subtract-add}
use building_programming_lan.Io.Context.{IoContext, new_io, mismatch, need_read}
use building_programming_lan.Io.ReadStatic
use building_programming_lan.Io.ReadStatic.{execute-handle_read}
use building_programming_lan.Io.TerminateList
use building_programming_lan.Io.TerminateList.{consumed-execute}
use building_programming_lan.Io.ReadUntil
use building_programming_lan.Io.ReadUntil.Plain.{handle_read-extend, read_value}
use building_programming_lan.Io.ReadUntil.Escaped.{read-write_escaped, retry_duplicates}
use building_programming_lan.Io.ReadUntil.Total.{handle_read-total}
use building_programming_lan.Io.ReadInt32
use building_programming_lan.Io.ReadInt32.{feed, flatten, feed-flatten, read-write_int32}
use building_programming_lan.Io.ReadAscii
use building_programming_lan.Io.ReadAscii.{nine_cuts, read-print_int}
use building_programming_lan.Io.Lookahead
use building_programming_lan.Io.Lookahead.{extend, ready-execute, mismatch-extend}
use building_programming_lan.Io.Write.{write_static_octets, int32_bytes}
use building_programming_lan.Io.Write.Escape.{
  apply_escape_replacement, replace_from, escaped, replace_from-total,
}
use building_programming_lan.Io.Write.Drain.{drain, total, drain_in_order}
use building_programming_lan.Control.ForEach
use building_programming_lan.Control.Generate
use building_programming_lan.Frame.{concept, children_count}
use building_programming_lan.Frame.Execute.{Globals, execute_value}
use building_programming_lan.Continuation.{Continuation, new_continuation, exited}
use building_programming_lan.Continuation.Eval.{apply, eval, stops, Straight, run}
use building_programming_lan.Continuation.Eval.Steps.{run-eval}
use building_programming_lan.Interpreter.{Interpreter, new_interpreter}
use building_programming_lan.Runner.{
  InterpreterContext, still_blocked, HandleBlockedResult, read_input,
}

-- A program: 2 + 3.
abbrev two_plus_three : OpTreeNode
two_plus_three =
    node add
      (child (node (int32_literal (pos 2)) leaf) (child (node (int32_literal (pos 3)) leaf) leaf))

abbrev fresh : Globals
fresh = record { pads = []; erange = false }

two_plus_three-Straight : Straight two_plus_three
unfolding Straight concept children_count
two_plus_three-Straight = (refl, ((refl, tt), ((refl, tt), tt)))

eval-two_plus_three : eval two_plus_three 0 fresh ≡ ok (int32 (pos 5), fresh)
unfolding eval Compute.add stops concept apply execute_value
eval-two_plus_three = refl

run-eval_example :
    (k : ℕ) × (c : Continuation) × (run k (new_continuation (optree two_plus_three) 0) fresh
      ≡ ok (c, fresh))
    × (c.state ≡ exited)
    × (c.result ≡ value (int32 (pos 5)))
run-eval_example =
    run-eval two_plus_three 0 fresh fresh (int32 (pos 5)) two_plus_three-Straight
      eval-two_plus_three

-- The escape of a line break, as a mail protocol has it.
abbrev crlf : Bytes
crlf = 13 ∷ 10 ∷ []

abbrev hello : Bytes
hello = codes "a.b"

other_start : starts_with (codes ".") (codes "250") ≡ false
unfolding starts_with
other_start = refl

read-write_escaped_example :
    (wire : Bytes) × (apply_escape_replacement (codes "a\nb") (10 ∷ []) (crlf ++ codes ".")
      ≡ ok wire)
    × (r : IoContext) × (ReadUntil.handle_read crlf
          (some (10 ∷ [], crlf ++ codes "."))
          new_io
          (wire ++ (crlf ++ codes "250"))
        ≡ ok (r, length wire + length crlf))
    × (ReadUntil.execute r ≡ value (octets (codes "a\nb")))
read-write_escaped_example =
    read-write_escaped 10 (13 ∷ []) (codes ".") (codes "250") (ground arith, tt) other_start
      (codes "a\nb")

retry_duplicates_example :
    let wire =
      codes "a"
      ++ ((crlf ++ codes ".")
          ++ (escaped 10 (crlf ++ codes ".") (codes "b") ++ (crlf ++ codes "250"))) in
    (first : IoContext) × (ReadUntil.handle_read crlf
        (some (10 ∷ [], crlf ++ codes "."))
        new_io
        (codes "a" ++ (crlf ++ codes "."))
      ≡ ok (first, 0))
    × (second : IoContext) × (ReadUntil.handle_read crlf
          (some (10 ∷ [], crlf ++ codes "."))
          first
          wire
        ≡ ok (
          second,
          length (codes "a" ++ ((crlf ++ codes ".") ++ escaped 10 (crlf ++ codes ".") (codes "b")))
              + length crlf,
        ))
    × (ReadUntil.execute second
        ≡ value (octets ((codes "a" ++ 10 ∷ []) ++ (codes "a" ++ 10 ∷ codes "b"))))
retry_duplicates_example =
    retry_duplicates 10 (13 ∷ []) (codes ".") (codes "250") (ground arith, tt) other_start
      (codes "a") (codes "b") (ground arith, tt)

handle_read-total_example :
    (r : IoContext × ℕ) × (ReadUntil.handle_read crlf
        (some (10 ∷ [], crlf ++ codes "."))
        new_io
        hello
      ≡ ok r)
handle_read-total_example =
    handle_read-total crlf (10 ∷ []) (crlf ++ codes ".") hello new_io (omega arith)

replace_from-total_example :
    (r : Bytes) × (replace_from 4 (10 ∷ []) (crlf ++ codes ".") hello [] ≡ ok r)
replace_from-total_example =
    replace_from-total 4 (10 ∷ []) (crlf ++ codes ".") hello [] (omega arith) (omega arith)

find_dot : find (codes ".") hello ≡ some 1
unfolding find starts_with
find_dot = refl

handle_read-extend_example :
    ReadUntil.handle_read (codes ".") none new_io (hello ++ codes "c")
    ≡ ReadUntil.handle_read (codes ".") none new_io hello
handle_read-extend_example = handle_read-extend (codes ".") hello (codes "c") new_io 1 find_dot

read_value_example :
    (r : IoContext) × (ReadUntil.handle_read
        (13 ∷ 10 ∷ [])
        none
        new_io
        (codes "EHLO" ++ ((13 ∷ 10 ∷ []) ++ codes "x"))
      ≡ ok (r, length (codes "EHLO") + length {A = ℕ} (13 ∷ 10 ∷ [])))
    × (ReadUntil.execute r ≡ value (octets (codes "EHLO")))
read_value_example =
    read_value 10 (13 ∷ []) (codes "EHLO") (codes "x") (ground arith, tt)
      (ground arith, (ground arith, (ground arith, (ground arith, tt))))

-- A call that names one argument.
abbrev body : OpTree
body = optree (node (int32_literal (pos 7)) leaf)

abbrev two_values : List Value
two_values = int32 (pos 1) ∷ bool true ∷ []

abbrev two_results : List Value
two_results = octets (codes "x") ∷ octets (codes "y") ∷ []

-- The calls have one argument and two.
abbrev two_calls : List (List Value)
two_calls = (int32 (pos 1) ∷ []) ∷ two_values ∷ []

abbrev two_lists : List Value
two_lists = list (of_list (int32 (pos 1) ∷ [])) ∷ list (of_list two_values) ∷ []
