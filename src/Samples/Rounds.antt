-- ===== src/Samples/Rounds.antt =====
-- The theorem on a round of the runner at a concrete context.
use building_programming_lan.Prelude.{◌≡◌, refl, true, false, none, [], ◌∷◌}
use building_programming_lan.Bytes.{codes, starts_with}
use building_programming_lan.Outcome.{ok}
use building_programming_lan.Value.{
  OpTree, optree, node, leaf, bool, value, read_octets_until_terminator,
}
use building_programming_lan.Io.ReadUntil
use building_programming_lan.Frame.{io_context}
use building_programming_lan.Continuation.{missing_arguments}
use building_programming_lan.Interpreter.{new_interpreter}
use building_programming_lan.Runner.{InterpreterContext, unblocked, read_input}
use building_programming_lan.Runner.Input.{Consumes, read_input-Consumes}

-- An interpreter that waits for a terminator, with two fragments in the queue.
abbrev waiting_program : OpTree
waiting_program = optree (node (read_octets_until_terminator (codes ";") none) leaf)

abbrev two_fragments : InterpreterContext
two_fragments = record {
  interpreter = new_interpreter waiting_program 0;
  input_buffer = codes "ab" ∷ codes "c;d" ∷ [];
  output_buffer = [];
  callback_request_queue = [];
  callback_response_queue = [];
  interpreter_result = none;
  eof = false;
  exited = false;
}

-- The context once the two fragments are joined and read.
abbrev joined_fragments : InterpreterContext
joined_fragments = record two_fragments {
  interpreter = record {
    rootpad = 0;
    continuation_stack =
        record {
          stack =
              record {
                operation = read_octets_until_terminator (codes ";") none;
                children = leaf;
                accumulator = [];
                context = io_context (record {
                  buffer = codes "abc";
                  it = 0;
                  it_set = false;
                  ready = true;
                  eof = false;
                });
                pad = 0;
              }
              ∷ [];
          pad = 0;
          state = missing_arguments;
          result = value (bool false);
        }
        ∷ [];
  };
  input_buffer = codes "d" ∷ [];
}

read_two_fragments : read_input two_fragments ≡ ok (joined_fragments, unblocked)
unfolding read_input new_interpreter ReadUntil.handle_read starts_with
read_two_fragments = refl

read_input-Consumes_example :
    Consumes two_fragments.interpreter two_fragments.input_buffer joined_fragments.input_buffer
      joined_fragments.interpreter unblocked
read_input-Consumes_example =
    read_input-Consumes two_fragments joined_fragments unblocked read_two_fragments
