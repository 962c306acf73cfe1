-- ===== src/Lib.antt =====
-- The interpreter of a language for network protocols: a program is a tree of operations, run on a
-- stack machine that blocks on input, output, callbacks and calls, and resumes where it blocked.
--
-- The parts, from the bottom, with the files under src/networkprotocoldsl that they model:
--   Value      value.hpp, optree.hpp, operation.hpp: values, trees and the variant of operations.
--   Pad        lexicalpad.cpp: scopes, which are shared and mutable. A pad is an address in a store,
--              and Pad.Scope has the rules of its names.
--   Compute    operation/add.cpp and the others that return a value at once.
--   Io         operation/read*.cpp, write*.cpp, terminatelistifreadahead.cpp and
--              transitionlookahead.cpp: each has a context that `handle_read`, `handle_write` and
--              `handle_eof` change and that `operator()`, here `execute`, evaluates. The iterator of a
--              context is an offset.
--   Control    operation/functioncall.cpp, functioncallforeach.cpp, generatelist.cpp, if.cpp and
--              statemachineoperation.cpp: operations that ask the interpreter for calls.
--   Frame      executionstackframe.cpp: an operation with the values of its children so far.
--   Continuation  continuation.cpp: the stack of frames of one evaluation, and its step;
--              Continuation.Eval compares it with a recursive evaluation, and Continuation.Prepare
--              is about its loop.
--   Interpreter   interpreter.hpp: the stack of continuations, one for each call; Interpreter.Call is
--              about the arguments of a call.
--   Runner     interpreterrunner.cpp, support/mutexlockqueue.hpp: what a round of the runner does with
--              one interpreter and its queues.
--   Syntax     parser/tree/*.hpp: the tree of a protocol description.
--   Sema       sema/ast/*.hpp and the analysis: Sema.Parts has the actions that write and read the parts
--              of a message (sema/partstowriteactions.cpp, sema/partstoreadactions.cpp), Sema.Analyze
--              the states and transitions of the two agents (sema/analyze.cpp).
--   Generate   generate.cpp: operation trees from actions, transitions and states. Generate.Supplied is
--              about the children of the operations, Generate.Analyzed about analysis, generation and
--              state machine together.
--   Parser     parser/grammar/*.hpp with parser/support/recursiveparser.hpp and parser/parse.cpp: the
--              grammar as functions from tokens to a node and the tokens left. Parser.Shorter is about
--              what a parser takes, Parser.Yields and Parser.Filled about what it builds.
--   Lexer      lexer/tokenize.cpp: the rules and the loop over the matches of lexertl; Lexer.Literal has
--              the string literals, with codegen/outputcontext.cpp that writes them for C++.
--   Program    interpretedprogram.cpp: from a source text to the interpreter of one side.
--   Codegen    codegen/typemapping.cpp and protocolinfo.cpp: the C++ types and names, and what the
--              generators of C++ read of a protocol.
--   Collection support/transactionalcontainer.hpp and interpretercollectionmanager.cpp: interpreters by
--              file descriptor, changed by transactions of several threads.
--   Samples    the theorems at concrete inputs.
-- Prelude, Bytes and Outcome are shared: lists and tests on native numbers, strings of bytes, and
-- results with the faults that C++ leaves undefined or throws without a handler.
--
-- State is passed explicitly: a member function that changes its context returns the new one. A
-- `std::visit` over overloads is a function by clauses, in the order in which C++ picks the overload.
-- A `std::unordered_map` is an association list, as nothing read here depends on its order, but for which
-- of two transitions with one message the generators of C++ describe; a
-- `std::shared_ptr` to something immutable is that thing. `int32_t` arithmetic is on integers with a
-- range test, and the result out of range is a fault; `char` is a number below 256.
-- Loops are recursion on the input, but for those that search and skip. ReadOctetsUntilTerminator's has
-- one round for each byte and one more, and so has the replacement of escapes; both are enough where
-- the pattern that is skipped is not empty. `prepare` descends the tree. The parser recurses on fuel,
-- one more than the number of tokens, which is enough as every repetition takes a token. The lexer has
-- one round for each byte and one more; a lookup that does not advance would loop for ever in the code,
-- and is a fault of the model.
--
-- Parameters: the lookup of lexertl, which finds the next match of the rules in a text, and `isprint`
-- and the other functions of <cctype>. A transaction of another thread is an exchange between a load
-- and its compare-and-exchange, given as a sequence of steps.
--
-- Not modelled: the generation of C++ (codegen/) but for its string literals, types, names and its
-- view of a protocol, the libuv runners (../networkprotocoldsl_uv/), the waiting and waking of threads and the notifications of a collection,
-- the reading of source files, the tracing of the parser, and debug output.
pub mod Prelude
pub mod Bytes
pub mod Outcome
pub mod Value
pub mod Pad
pub mod Codegen
pub mod Compute
pub mod Io
pub mod Control
pub mod Frame
pub mod Continuation
pub mod Interpreter
pub mod Runner
pub mod Collection
pub mod Syntax
pub mod Parser
pub mod Lexer
pub mod Sema
pub mod Generate
pub mod Program
pub mod Samples
