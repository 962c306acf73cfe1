-- ===== src/Sema/Parts/Mirror.antt =====
-- sema/partstoreadactions.cpp against sema/partstowriteactions.cpp: the actions of the two sides of a
-- message.
use building_programming_lan.Prelude.{
  ◌≡◌, ◌≢◌, refl, ap, subst, Option, none, some, List, [], ◌∷◌, ◌++◌,
}
use building_programming_lan.Bytes.{Bytes}
use building_programming_lan.Syntax.{
  EscapeReplacement, TokenPart, token_literal, token_identifier, TokenSequence, token_sequence,
  terminator, message_for_loop, MessageSequence, no_part, part, IdentifierReference,
}
use building_programming_lan.Sema.{
  Action, action_read_static_octets, action_read_octets_until_terminator, action_loop, Actions,
  no_action, action,
}
use building_programming_lan.Sema.Parts.{join}
use building_programming_lan.Sema.Parts.Unread.{
  unread, join_assoc, unread-append, unread-escape, literal, written-terminator,
}
use building_programming_lan.Sema.Parts.Write
use building_programming_lan.Sema.Parts.Write.{
  token_action, token_sequence_actions, full_sequence, loop_action, parts_to_write_actions,
}
use building_programming_lan.Sema.Parts.Read
use building_programming_lan.Sema.Parts.Read.{
  before, process_token_sequence, match_last, match_terminated, parts_to_read_actions,
}

-- The grammar has no token sequence without a token.
unfoldable pub Filled : MessageSequence → Type 0
Filled no_part = Unit {0}
Filled (part (token_sequence ts) rest) = (ts.tokens ≢ []) × Filled rest
Filled (part (terminator t) rest) = Filled rest
Filled (part (message_for_loop variable collection block o) rest) = Filled block × Filled rest

-- What is read can be written, by the mirrored actions.
Mirrored : Option Actions → Option Actions → Type 0
Mirrored none w = Unit {0}
Mirrored (some xs) w = w ≡ some (unread xs)

join-Mirrored :
    (r s w v : Option Actions) → Mirrored r w → Mirrored s v → Mirrored (join r s) (join w v)
unfolding join Mirrored
join-Mirrored none s w v h k = tt
join-Mirrored (some xs) none w v h k = tt
join-Mirrored (some xs) (some ys) w v h k = rw (h, k, unread-append xs ys)

escape-Mirrored :
    (e : Option EscapeReplacement) (r w : Option Actions)
    → Mirrored r w
    → Mirrored (Read.with_escape e r) (Write.with_escape e w)
unfolding Read.with_escape Write.with_escape Mirrored
escape-Mirrored none r w h = h
escape-Mirrored (some e) none w h = tt
escape-Mirrored (some e) (some xs) w h = rw (h, unread-escape e xs)

before-Mirrored :
    (a : Action) (o : Option Actions) (w v : Actions)
    → Mirrored o (some w)
    → ((xs : Actions) → w ≡ unread xs → v ≡ unread (action a xs))
    → Mirrored (before a o) (some v)
unfolding before Mirrored
before-Mirrored a none w v h k = tt
before-Mirrored a (some xs) w v h k = ap some (k xs cc)

tokens-Mirrored :
    (ts : List TokenPart) → Mirrored (Read.token_actions ts) (some (Write.token_actions ts))
unfolding Read.token_actions Write.token_actions token_action unread Mirrored
tokens-Mirrored [] = refl
tokens-Mirrored (token_literal b ∷ rest) =
    before-Mirrored (action_read_static_octets b) (Read.token_actions rest) _ _
      (tokens-Mirrored rest) λ xs e. rw e refl
tokens-Mirrored (token_identifier id ∷ []) = tt
tokens-Mirrored (token_identifier id ∷ token_literal t ∷ rest) =
    before-Mirrored (action_read_octets_until_terminator t id none) (Read.token_actions rest) _ _
      (tokens-Mirrored rest) λ xs e. rw e refl
tokens-Mirrored (token_identifier id ∷ token_identifier i ∷ rest) = tt

parse-Mirrored : (ts : List TokenPart) → Mirrored (Read.parse_tokens ts) (Write.parse_tokens ts)
unfolding Read.parse_tokens Write.parse_tokens Mirrored
parse-Mirrored [] = tt
parse-Mirrored (t ∷ rest) = tokens-Mirrored (t ∷ rest)

last-Mirrored :
    (ts : TokenSequence) (o : Option Bytes)
    → Mirrored
        (match_last ts o)
        (Write.with_escape ts.escape (Write.parse_tokens (full_sequence ts.tokens o)))
unfolding match_last process_token_sequence
last-Mirrored ts none = escape-Mirrored ts.escape _ _ (parse-Mirrored ts.tokens)
last-Mirrored ts (some t) =
    escape-Mirrored ts.escape _ _ (parse-Mirrored (ts.tokens ++ token_literal t ∷ []))

terminated-Mirrored :
    (ts : TokenSequence) (o : Option Bytes) (t : Bytes)
    → ts.tokens ≢ []
    → Mirrored (match_terminated ts o t) (
        join
          (Write.with_escape ts.escape (Write.parse_tokens (full_sequence ts.tokens o)))
          (some (literal t)))
unfolding match_terminated process_token_sequence Mirrored
terminated-Mirrored ts (some embedded) t h = tt
terminated-Mirrored ts none t h =
    subst (Mirrored (process_token_sequence ts t)) (written-terminator ts.escape ts.tokens t h)
      (escape-Mirrored ts.escape _ _ (parse-Mirrored (ts.tokens ++ token_literal t ∷ [])))

loop-Mirrored :
    (v c : IdentifierReference) (t : Bytes) (r w : Option Actions)
    → Mirrored r w
    → Mirrored (loop_action (action_loop v c t) r) (loop_action (action_loop v c t) w)
unfolding loop_action Mirrored unread
loop-Mirrored v c t none w h = tt
loop-Mirrored v c t (some xs) w h = rw h

parts-Mirrored :
    (ps : MessageSequence)
    → Filled ps
    → Mirrored (parts_to_read_actions ps) (parts_to_write_actions ps)
unfolding parts_to_read_actions parts_to_write_actions Filled unread token_sequence_actions Mirrored
parts-Mirrored no_part h = refl
parts-Mirrored (part (terminator t) rest) h = tt
parts-Mirrored (part (token_sequence ts) no_part) h =
    join-Mirrored (match_last ts ts.terminator) (some no_action) _ (some no_action)
      (last-Mirrored ts ts.terminator) refl
parts-Mirrored (part (token_sequence ts) (part (terminator t) rest)) (h, k) =
    subst (Mirrored (join (match_terminated ts ts.terminator t) (parts_to_read_actions rest)))
      (join_assoc (token_sequence_actions ts) (some (literal t)) (parts_to_write_actions rest))
      (join-Mirrored (match_terminated ts ts.terminator t) (parts_to_read_actions rest) _
        (parts_to_write_actions rest) (terminated-Mirrored ts ts.terminator t h)
        (parts-Mirrored rest k))
parts-Mirrored (part (token_sequence ts) (part (token_sequence us) rest)) h = tt
parts-Mirrored (part (token_sequence ts) (part (message_for_loop v c block o) rest)) h = tt
parts-Mirrored (part (message_for_loop v c block o) (part (terminator t) rest)) (h, k) =
    join-Mirrored _ (parts_to_read_actions rest) _ (parts_to_write_actions rest)
      (loop-Mirrored v c t _ _ (parts-Mirrored block h)) (parts-Mirrored rest k)
parts-Mirrored (part (message_for_loop v c block o) no_part) h = tt
parts-Mirrored (part (message_for_loop v c block o) (part (token_sequence us) rest)) h = tt
parts-Mirrored (part (message_for_loop v c block o) (part (message_for_loop a b d e) rest)) h = tt

-- Where the parts of a message, whose token sequences are not empty, give actions that read, they also
-- give actions that write, and these are the mirror image: the same literals, loops and terminators
-- in the same order, with the value written before the literal that it is read up to, and the same
-- escape.
pub write-read_actions :
    (ps : MessageSequence) (xs : Actions)
    → Filled ps
    → parts_to_read_actions ps ≡ some xs
    → parts_to_write_actions ps ≡ some (unread xs)
unfolding Mirrored
write-read_actions ps xs h e =
    subst (λ (o : Option Actions). Mirrored o (parts_to_write_actions ps)) e (parts-Mirrored ps h)
