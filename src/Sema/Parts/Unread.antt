-- ===== src/Sema/Parts/Unread.antt =====
-- sema/support.hpp and the two files of actions: sequences of actions, and the actions that write what
-- others read.
use building_programming_lan.Prelude.{
  ◌≡◌, ◌≢◌, refl, ap, ◌∙◌, Option, none, some, List, [], ◌∷◌, ◌++◌,
}
use building_programming_lan.Bytes.{Bytes}
use building_programming_lan.Syntax.{EscapeReplacement, TokenPart, token_literal}
use building_programming_lan.Sema.{
  action_read_static_octets, action_read_octets_until_terminator, action_write_from_identifier,
  action_write_static_octets, action_loop, Actions, no_action, action,
}
use building_programming_lan.Sema.Parts.{append_actions, join}
use building_programming_lan.Sema.Parts.Write
use building_programming_lan.Sema.Parts.Write.{
  token_action, token_sequence_actions, full_sequence, loop_action, parts_to_write_actions,
}
use building_programming_lan.Sema.Parts.Read
use building_programming_lan.Sema.Parts.Read.{
  before, process_token_sequence, match_last, match_terminated, parts_to_read_actions,
}

-- The actions that write what the given actions read; an action that does not read is left out.
unfoldable pub unread : Actions → Actions
unread no_action = no_action
unread (action (action_read_static_octets octets) rest) =
    action (action_write_static_octets octets) (unread rest)
unread (action (action_read_octets_until_terminator t id e) rest) =
    action (action_write_from_identifier id e) (action (action_write_static_octets t) (unread rest))
unread (action (action_loop variable collection t block) rest) =
    action (action_loop variable collection t (unread block)) (unread rest)
unread (action a rest) = unread rest

append_assoc :
    (xs ys zs : Actions)
    → append_actions (append_actions xs ys) zs ≡ append_actions xs (append_actions ys zs)
unfolding append_actions
append_assoc no_action ys zs = refl
append_assoc (action a xs) ys zs = ap (action a) (append_assoc xs ys zs)

append-none : (xs : Actions) → append_actions xs no_action ≡ xs
unfolding append_actions
append-none no_action = refl
append-none (action a xs) = ap (action a) (append-none xs)

pub join_assoc : (o p q : Option Actions) → join (join o p) q ≡ join o (join p q)
unfolding join
join_assoc none p q = refl
join_assoc (some xs) none q = refl
join_assoc (some xs) (some ys) none = refl
join_assoc (some xs) (some ys) (some zs) = ap some (append_assoc xs ys zs)

pub unread-append :
    (xs ys : Actions) → unread (append_actions xs ys) ≡ append_actions (unread xs) (unread ys)
unfolding unread append_actions
unread-append no_action ys = refl
unread-append (action (action_read_static_octets b) xs) ys = rw (unread-append xs ys)
unread-append (action (action_read_octets_until_terminator t id e) xs) ys = rw (unread-append xs ys)
unread-append (action (action_write_from_identifier id e) xs) ys = unread-append xs ys
unread-append (action (action_write_static_octets b) xs) ys = unread-append xs ys
unread-append (action (action_loop v c t block) xs) ys = rw (unread-append xs ys)

pub unread-escape :
    (e : EscapeReplacement) (xs : Actions)
    → Write.apply_escape_to_actions e (unread xs) ≡ unread (Read.apply_escape_to_actions e xs)
unfolding unread Read.apply_escape_to_actions Write.apply_escape_to_actions
unread-escape e no_action = refl
unread-escape e (action (action_read_static_octets b) xs) = rw (unread-escape e xs)
unread-escape e (action (action_read_octets_until_terminator t id o) xs) = rw (unread-escape e xs)
unread-escape e (action (action_write_from_identifier id o) xs) = unread-escape e xs
unread-escape e (action (action_write_static_octets b) xs) = unread-escape e xs
unread-escape e (action (action_loop v c t block) xs) = rw (unread-escape e xs)

-- A literal after the tokens is written after them, whatever they escape.
abbrev pub literal : Bytes → Actions
literal t = action (action_write_static_octets t) no_action

tokens-append :
    (ts : List TokenPart) (t : Bytes)
    → Write.token_actions (ts ++ token_literal t ∷ [])
      ≡ append_actions (Write.token_actions ts) (literal t)
unfolding Write.token_actions append_actions token_action
tokens-append [] t = refl
tokens-append (p ∷ ts) t = ap (action (token_action p)) (tokens-append ts t)

escape-append :
    (e : EscapeReplacement) (xs : Actions) (t : Bytes)
    → Write.apply_escape_to_actions e (append_actions xs (literal t))
      ≡ append_actions (Write.apply_escape_to_actions e xs) (literal t)
unfolding Write.apply_escape_to_actions append_actions
escape-append e no_action t = refl
escape-append e (action (action_read_static_octets b) xs) t = rw (escape-append e xs t)
escape-append e (action (action_read_octets_until_terminator u id o) xs) t =
    rw (escape-append e xs t)
escape-append e (action (action_write_from_identifier id o) xs) t = rw (escape-append e xs t)
escape-append e (action (action_write_static_octets b) xs) t = rw (escape-append e xs t)
escape-append e (action (action_loop v c u block) xs) t = rw (escape-append e xs t)

pub written-terminator :
    (e : Option EscapeReplacement) (ts : List TokenPart) (t : Bytes)
    → ts ≢ []
    → Write.with_escape e (Write.parse_tokens (ts ++ token_literal t ∷ []))
      ≡ join (Write.with_escape e (Write.parse_tokens ts)) (some (literal t))
unfolding Write.with_escape Write.parse_tokens join
written-terminator e [] t h = absurd (h refl)
written-terminator none (p ∷ ts) t h = ap some (tokens-append (p ∷ ts) t)
written-terminator (some e) (p ∷ ts) t h = ap some (
    ap (Write.apply_escape_to_actions e) (tokens-append (p ∷ ts) t)
    ∙ escape-append e (Write.token_actions (p ∷ ts)) t)
