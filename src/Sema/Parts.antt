-- ===== src/Sema/Parts.antt =====
-- sema/support.hpp, and what sema/partstowriteactions.cpp and sema/partstoreadactions.cpp share. The
-- parsers of those two files are recursions on the parts of a message; where a parser matches
-- nothing, or leaves parts over, the result is `none`.
pub mod Write
pub mod Read
pub mod Unread
pub mod Mirror
use building_programming_lan.Prelude.{Option, none, some, List, [], ◌∷◌}
use building_programming_lan.Syntax.{EscapeReplacement}
use building_programming_lan.Sema.{EscapeInfo, Actions, no_action, action}

unfoldable pub append_actions : Actions → Actions → Actions
append_actions no_action bs = bs
append_actions (action a xs) bs = action a (append_actions xs bs)

-- The actions of a fragment before those of the fragments after it.
unfoldable pub join : Option Actions → Option Actions → Option Actions
unfolding append_actions
join (some xs) (some ys) = some (append_actions xs ys)
join _ _ = none

abbrev pub escape_info : EscapeReplacement → EscapeInfo
escape_info e = record { character = e.character; sequence = e.sequence }
