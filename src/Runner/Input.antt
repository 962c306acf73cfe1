-- ===== src/Runner/Input.antt =====
-- The bytes of the input queue while the runner hands them to the operation.
use building_programming_lan.Prelude.{
  ℕ, ==_iff, ap, append-nil, ◌≡◌, ◌∙◌, refl, sym, Bool, true, false, List, [], ◌∷◌, ◌++◌, drop,
  ◌==◌, arith, append_assoc, drop_all, Bool-cases, inl, inr, ◌⊎◌, subst, elim_true, elim_false,
  if_true, if_false,
}
use building_programming_lan.Bytes.{Bytes}
use building_programming_lan.Outcome.{ok, bind_parts, ok-injective}
use building_programming_lan.Interpreter.{Interpreter, handle_read, handle_eof, ready_to_evaluate}
use building_programming_lan.Runner.{
  InterpreterContext, HandleBlockedResult, unblocked, put_back, push_front, join_buffers,
  read_queue, read_input,
}

-- The bytes that a queue holds.
pub contents : List Bytes → Bytes
contents [] = []
contents (b ∷ queue) = b ++ contents queue

-- What `put_back` leaves: the bytes behind those consumed.
contents-put_back :
    (s : Bytes) (k : ℕ) (queue : List Bytes)
    → contents (put_back s k queue) ≡ drop k s ++ contents queue
unfolding contents put_back push_front
contents-put_back s k queue = ground (arith, drop_all k s)

-- The interpreter after a growing text was handed to it, from which it took nothing.
pub data Handed (start : Interpreter) : Interpreter → Bytes → Type 0 where
  not_yet : Handed start start []
  took_none :
      {i j : Interpreter} (text more : Bytes)
      → Handed start i text
      → handle_read i (text ++ more) ≡ ok (j, 0)
      → Handed start j (text ++ more)

-- The queue keeps its bytes: all of them were handed over, or there was nothing but the end of the input.
abbrev pub Kept : Interpreter → Bytes → Bytes → Interpreter → Type 0
Kept start before after i =
    (after ≡ before) × (Handed start i before ⊎ ((before ≡ []) × (handle_eof start ≡ ok i)))

-- The first bytes of the queue were handed over, the operation took `k` of them, and exactly these are
-- gone.
abbrev pub Taken : Interpreter → Bytes → Bytes → Interpreter → Type 0
Taken start before after i =
    (j : Interpreter) × (text more rest : Bytes) × (k : ℕ) × Handed start j text
    × (handle_read j (text ++ more) ≡ ok (i, k))
    × ((k == 0) ≡ false)
    × (before ≡ (text ++ more) ++ rest)
    × (after ≡ drop k (text ++ more) ++ rest)

abbrev pub Consumes :
    Interpreter → List Bytes → List Bytes → Interpreter → HandleBlockedResult → Type 0
Consumes start q q' i r =
    Kept start (contents q) (contents q') i
    ⊎ (Taken start (contents q) (contents q') i × (r ≡ unblocked))

took-Consumes :
    (start i j : Interpreter) (text more : Bytes) (queue : List Bytes) (k : ℕ)
    → Handed start i text
    → handle_read i (text ++ more) ≡ ok (j, k)
    → (k == 0) ≡ false
    → (before : List Bytes) → contents before ≡ (text ++ more) ++ contents queue
    → Consumes start before (put_back (text ++ more) k queue) j unblocked
took-Consumes start i j text more queue k h e n before c =
    inr (
      (i, text, more, contents queue, k, h, e, n, c, contents-put_back (text ++ more) k queue),
      refl,
    )

-- What the loop leaves of the queue `q`, for a result `t` of it.
abbrev Leaves : Interpreter → List Bytes → Interpreter × List Bytes × HandleBlockedResult → Type 0
Leaves start q t = Consumes start q t.1 t.0 t.2

join_buffers-Leaves :
    (start i : Interpreter) (joined : Bytes) (queue q : List Bytes) (did_join : Bool)
    (t : Interpreter × List Bytes × HandleBlockedResult)
    → Handed start i joined
    → contents q ≡ joined ++ contents queue
    → join_buffers i joined queue did_join ≡ ok t
    → Leaves start q t
unfolding join_buffers push_front contents
join_buffers-Leaves start i joined [] q did_join t handed c h =
    let step = bind_parts (ready_to_evaluate i) _ h in
    subst (Leaves start q) (ok-injective step.2)
      (inl (sym c, inl (subst (Handed start i) (sym (c ∙ append-nil joined)) handed)))
join_buffers-Leaves start i joined (next ∷ queue) q did_join t handed c h =
    let step = bind_parts (handle_read i (joined ++ next)) _ h in
    let r = step.0 in
    let front = c ∙ sym (append_assoc joined next (contents queue)) in
    elim (Bool-cases (r.1 == 0)) [
      | inl z ↦
          join_buffers-Leaves start r.0 (joined ++ next) queue q true t
            (took_none joined next handed
              (step.1 ∙ ap (λ (n : ℕ). ok (r.0, n)) ((==_iff r.1 0).0 z)))
            front (sym (elim_true _ _ z) ∙ step.2)
      | inr z ↦
          subst (Leaves start q) (ok-injective (sym (elim_false _ _ z) ∙ step.2))
            (took-Consumes start i r.0 joined next queue r.1 handed step.1 z q front)
    ]

-- What a round leaves, for a result `t` of it.
abbrev RoundLeaves : Interpreter → List Bytes → InterpreterContext × HandleBlockedResult → Type 0
RoundLeaves start q t = Consumes start q t.0.input_buffer t.0.interpreter t.1

read_queue-Leaves :
    (c : InterpreterContext) (queue : List Bytes) (t : InterpreterContext × HandleBlockedResult)
    → read_queue c queue ≡ ok t
    → RoundLeaves c.interpreter queue t
unfolding read_queue contents
read_queue-Leaves c [] t h = elim (Bool-cases c.eof) [
  | inl e ↦
      let step = bind_parts (handle_eof c.interpreter) _ (sym (if_true _ _ e) ∙ h) in
      subst (RoundLeaves c.interpreter []) (ok-injective step.2) (inl (refl, inr (refl, step.1)))
  | inr e ↦
      subst (RoundLeaves c.interpreter []) (ok-injective (sym (if_false _ _ e) ∙ h))
        (inl (refl, inl not_yet))
]
read_queue-Leaves c (buffer ∷ queue) t h =
    let step = bind_parts (handle_read c.interpreter buffer) _ h in
    let r = step.0 in
    elim (Bool-cases (r.1 == 0)) [
      | inl z ↦
          let joined =
            bind_parts (join_buffers r.0 buffer queue false) _ (sym (elim_true _ _ z) ∙ step.2) in
          subst (RoundLeaves c.interpreter (buffer ∷ queue)) (ok-injective joined.2) (
            join_buffers-Leaves c.interpreter r.0 buffer queue (buffer ∷ queue) false joined.0
              (took_none [] buffer not_yet
                (step.1 ∙ ap (λ (n : ℕ). ok (r.0, n)) ((==_iff r.1 0).0 z)))
              refl joined.1)
      | inr z ↦
          subst (RoundLeaves c.interpreter (buffer ∷ queue))
            (ok-injective (sym (elim_false _ _ z) ∙ step.2))
            (took-Consumes c.interpreter c.interpreter r.0 [] buffer queue r.1 not_yet step.1 z
              (buffer ∷ queue) refl)
    ]

-- A round of reading hands the operation the front of the input queue, in growing pieces for as long as
-- it takes nothing. Either all bytes of the queue were handed over together and all are still there, or
-- the queue was empty and the operation was told of the end of the input; or the operation took a
-- number of bytes, and then exactly so many from the front of the last piece, or the whole piece if
-- it is shorter, are gone from the queue, and the interpreter is unblocked. No other byte is
-- lost, repeated or reordered, whatever fragments the bytes came in.
pub read_input-Consumes :
    (c c' : InterpreterContext) (r : HandleBlockedResult)
    → read_input c ≡ ok (c', r)
    → Consumes c.interpreter c.input_buffer c'.input_buffer c'.interpreter r
unfolding read_input
read_input-Consumes c c' r h = read_queue-Leaves c c.input_buffer (c', r) h
