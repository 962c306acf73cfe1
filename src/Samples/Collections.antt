-- ===== src/Samples/Collections.antt =====
-- The theorems on the collections of interpreters and their transactions at concrete inputs.
use building_programming_lan.Prelude.{
  ℕ, ◌≡◌, refl, ◌⊎◌, inl, Bool, false, Option, none, some, [], ◌∷◌, if◌then◌else◌, ◌==◌,
}
use building_programming_lan.Collection.{
  Interpreters, find_interpreter, insert_interpreter, remove_interpreter, Updated, Insertable,
  insert_interpreter_lem, remove_interpreter_lem,
}
use building_programming_lan.Collection.Transaction.{
  Shared, load, compare_exchange, Held, Reaches, starts, loads, commits, commit_lem,
}

-- Descriptor 4 has a context that has exited, descriptor 5 one that has not.
abbrev two : Interpreters
two = (4, 0) ∷ (5, 1) ∷ []

abbrev first_exited : ℕ → Bool
first_exited ctx = ctx == 0

insert_interpreter_lem_example :
    ((after : Interpreters) × (insert_interpreter first_exited 4 2 two ≡ some after)
      × Insertable first_exited (find_interpreter 4 two)
      × Updated 4 2 two after 5)
    ⊎ ((insert_interpreter first_exited 4 2 two ≡ none)
        × (old : ℕ) × (find_interpreter 4 two ≡ some old)
        × (first_exited old ≡ false))
insert_interpreter_lem_example = insert_interpreter_lem first_exited 4 2 two 5

remove_interpreter_lem_example :
    find_interpreter 5 (remove_interpreter 4 two)
    ≡ (if 5 == 4 then none else find_interpreter 5 two)
remove_interpreter_lem_example = remove_interpreter_lem 4 5 two

-- Two threads have loaded the empty map, and one of them has inserted.
abbrev insert_four : Interpreters → Option Interpreters
insert_four = insert_interpreter first_exited 4 2

abbrev loaded_twice : Shared Interpreters
loaded_twice = load (load (record { pointer = 0; content = []; loaded = [] }))

abbrev after_first : Shared Interpreters
after_first = compare_exchange false 0 ((4, 2) ∷ []) loaded_twice

inserted_four : insert_four [] ≡ some ((4, 2) ∷ [])
unfolding insert_interpreter
inserted_four = refl

Held-twice : Held 0 [] loaded_twice.loaded
unfolding Held load
Held-twice = inl (refl, refl)

Held-after : Held 0 [] after_first.loaded
unfolding Held load compare_exchange
Held-after = inl (refl, refl)

after_first-Reaches : Reaches [] after_first
after_first-Reaches =
    commits insert_four 0 [] ((4, 2) ∷ []) false (loads (loads starts)) Held-twice inserted_four

commit_lem_example :
    (compare_exchange false 0 ((4, 2) ∷ []) after_first ≡ after_first)
    ⊎ ((insert_four after_first.content ≡ some ((4, 2) ∷ []))
        × ((compare_exchange false 0 ((4, 2) ∷ []) after_first).content ≡ (4, 2) ∷ []))
commit_lem_example =
    commit_lem [] after_first insert_four 0 [] ((4, 2) ∷ []) false after_first-Reaches Held-after
      inserted_four
