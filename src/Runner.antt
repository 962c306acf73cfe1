-- ===== src/Runner.antt =====
-- interpreterrunner.cpp, with interpretercontext.hpp and support/mutexlockqueue.hpp: one round of the
-- runner on one interpreter. A queue is the list of its elements, the front first; its lock makes each
-- operation one step. Notifications wake other threads and are left out.
pub mod Input
use building_programming_lan.Prelude.{
  ℕ, Bool, true, false, Option, none, some, List, [], ◌∷◌, ◌++◌, length, drop, if◌then◌else◌, ltb,
  ◌==◌,
}
use building_programming_lan.Bytes.{Bytes, eq_bytes}
use building_programming_lan.Outcome.{Outcome, ok, fault, ◌>>=◌}
use building_programming_lan.Value.{
  Value, runtime_error, type_error, OperationResult, value, blocked, waiting_for_callback,
  waiting_callback_data, waiting_for_read, waiting_for_write, waiting_for_callable_invocation,
  waiting_for_callable_result,
}
use building_programming_lan.Frame.Execute.{Globals}
use building_programming_lan.Continuation.{missing_arguments, ready, blocked_state, exited}
use building_programming_lan.Interpreter.{
  Interpreter, handle_read, handle_eof, ready_to_evaluate, get_write_buffer, handle_write,
  get_result, get_callback_key, get_callback_arguments, set_callback_called, set_callback_return,
  interpreter_step,
}

-- MutexLockQueue
module _ {ℓ} {A : Type ℓ} where
  unfoldable pub push_back : List A → A → List A
  push_back queue input = queue ++ input ∷ []

  unfoldable pub push_front : List A → A → List A
  push_front queue input = input ∷ queue

  unfoldable pub pop : List A → Option A × List A
  pop [] = (none, [])
  pop (x ∷ queue) = (some x, queue)

-- InterpreterContext; `interpreter_result` is the promise's value.
pub record InterpreterContext : Type 0 where
  pub interpreter : Interpreter
  pub input_buffer : List Bytes
  pub output_buffer : List Bytes
  pub callback_request_queue : List (Bytes × List Value)
  pub callback_response_queue : List Value
  pub interpreter_result : Option OperationResult
  pub eof : Bool
  pub exited : Bool

pub data HandleBlockedResult : Type 0 where
  still_blocked unblocked needs_retry : HandleBlockedResult

-- `if (consumed < s.size()) input_buffer.push_front(s.substr(consumed));`
unfoldable pub put_back : Bytes → ℕ → List Bytes → List Bytes
unfolding push_front
put_back s consumed queue =
    if ltb consumed (length s) then push_front queue (drop consumed s) else queue

-- The loop that joins buffers while the operation consumes nothing.
unfoldable pub join_buffers :
    Interpreter
    → Bytes
    → List Bytes
    → Bool
    → Outcome (Interpreter × List Bytes × HandleBlockedResult)
unfolding handle_read ready_to_evaluate put_back push_front
join_buffers i joined [] did_join = ready_to_evaluate i >>= (λ r. ok (
  i,
  push_front [] joined,
  if r then unblocked else if did_join then needs_retry else still_blocked,
))
join_buffers i joined (next ∷ queue) did_join = handle_read i (joined ++ next) >>= (λ r.
    elim (r.1 == 0) [
      | true ↦ join_buffers r.0 (joined ++ next) queue true
      | false ↦ ok (r.0, put_back (joined ++ next) r.1 queue, unblocked)
    ])

-- `handle_read` of the runner, on the queue of its context.
unfoldable pub read_queue :
    InterpreterContext → List Bytes → Outcome (InterpreterContext × HandleBlockedResult)
unfolding handle_read handle_eof join_buffers put_back
read_queue c (buffer ∷ queue) = handle_read c.interpreter buffer >>= (λ r. elim (r.1 == 0) [
  | true ↦
      join_buffers r.0 buffer queue false
      >>= (λ j. ok (record c { interpreter = j.0; input_buffer = j.1 }, j.2))
  | false ↦ ok (record c { interpreter = r.0; input_buffer = put_back buffer r.1 queue }, unblocked)
])
read_queue c [] =
    if c.eof
    then handle_eof c.interpreter
      >>= (λ i. ok (record c { interpreter = i; input_buffer = [] }, unblocked))
    else ok (record c { input_buffer = [] }, still_blocked)

unfoldable pub read_input : InterpreterContext → Outcome (InterpreterContext × HandleBlockedResult)
unfolding read_queue
read_input c = read_queue c c.input_buffer

unfoldable pub write_output :
    InterpreterContext → Outcome (InterpreterContext × HandleBlockedResult)
unfolding handle_eof get_write_buffer handle_write push_back
write_output c =
    if c.eof
    then handle_eof c.interpreter >>= (λ i. ok (record c { interpreter = i }, unblocked))
    else get_write_buffer c.interpreter >>= (λ buffer.
      handle_write c.interpreter (length buffer) >>= (λ r. ok (
        record c { interpreter = r.0; output_buffer = push_back c.output_buffer buffer },
        unblocked,
      )))

unfoldable pub start_callback :
    InterpreterContext → Outcome (InterpreterContext × HandleBlockedResult)
unfolding get_callback_key get_callback_arguments set_callback_called push_back
start_callback c = get_callback_key c.interpreter >>= (λ key.
    get_callback_arguments c.interpreter >>= (λ args. set_callback_called c.interpreter >>= (λ i.
      ok (
        record c {
          interpreter = i;
          callback_request_queue = push_back c.callback_request_queue (key, args);
        },
        unblocked,
      ))))

unfoldable pub finish_callback :
    InterpreterContext → Outcome (InterpreterContext × HandleBlockedResult)
unfolding set_callback_return
finish_callback c = elim c.callback_response_queue [
  | [] ↦ ok (c, still_blocked)
  | v ∷ queue ↦
      set_callback_return c.interpreter v
      >>= (λ i. ok (record c { interpreter = i; callback_response_queue = queue }, unblocked))
]

-- `handle_blocked_interpreter`
unfoldable pub handle_blocked :
    InterpreterContext → Outcome (InterpreterContext × HandleBlockedResult)
unfolding get_result read_input write_output start_callback finish_callback
handle_blocked c = get_result c.interpreter >>= (λ r. elim r [
  | blocked waiting_for_read ↦ read_input c
  | blocked waiting_for_write ↦ write_output c
  | blocked waiting_for_callback ↦ start_callback c
  | blocked waiting_callback_data ↦ finish_callback c
  | blocked waiting_for_callable_invocation ↦ ok (c, unblocked)
  | blocked waiting_for_callable_result ↦ ok (c, unblocked)
  | value v ↦ ok (c, unblocked)
])

-- What a round reports of an interpreter to the loop.
pub data Round : Type 0 where
  skipped ready_round blocked_round retry_round exited_round : Round

unfoldable pub round_of : HandleBlockedResult → Round
round_of still_blocked = blocked_round
round_of unblocked = ready_round
round_of needs_retry = retry_round

-- The body of the loop over the collection, for one interpreter.
unfoldable pub run_round :
    InterpreterContext → Globals → Outcome (InterpreterContext × Round × Globals)
unfolding interpreter_step handle_blocked get_result round_of
run_round c g = elim c.exited [
  | true ↦ ok (c, skipped, g)
  | false ↦ interpreter_step c.interpreter g >>= (λ s. elim s.0 [
    | missing_arguments ↦ ok (record c { interpreter = s.1 }, ready_round, s.2)
    | ready ↦ ok (record c { interpreter = s.1 }, ready_round, s.2)
    | blocked_state ↦
        handle_blocked (record c { interpreter = s.1 }) >>= (λ h. ok (h.0, round_of h.1, s.2))
    | exited ↦ get_result s.1 >>= (λ r. ok (
      record c { interpreter = s.1; exited = true; interpreter_result = some r },
      exited_round,
      s.2,
    ))
  ])
]

-- The callbacks that the program registered: a search by key.
unfoldable pub find_callback :
    Bytes → List (Bytes × (List Value → Value)) → Option (List Value → Value)
unfolding eq_bytes
find_callback key [] = none
find_callback key ((k, fp) ∷ callbacks) =
    if eq_bytes k key then some fp else find_callback key callbacks

-- The body of `callback_loop` for one interpreter, with whether it processed a callback.
unfoldable pub run_callback :
    List (Bytes × (List Value → Value)) → InterpreterContext → InterpreterContext × Bool
unfolding find_callback push_back
run_callback callbacks c = elim c.exited [
  | true ↦ (c, false)
  | false ↦ elim c.callback_request_queue [
    | [] ↦ (c, false)
    | (key, args) ∷ queue ↦ (
      record c {
        callback_request_queue = queue;
        callback_response_queue =
            push_back c.callback_response_queue (elim (find_callback key callbacks) [
              | none ↦ runtime_error type_error
              | some fp ↦ fp args
            ]);
      },
      true,
    )
  ]
]
