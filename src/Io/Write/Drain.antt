-- ===== src/Io/Write/Drain.antt =====
-- A write operation under a consumer that takes any number of bytes at a time.
use building_programming_lan.Prelude.{
  ℕ, zero, suc, ◌+◌, ◌-◌, ◌≤◌, ◌≡◌, ◌≢◌, refl, ◌∙◌, ap, true, false, List, [], ◌∷◌, ◌++◌, length,
  take, drop, min, arith, leb, if◌then◌else◌, length-drop, take-take, drop-drop,
}
use building_programming_lan.Prelude.Int.{pos}
use building_programming_lan.Bytes.{Bytes}
use building_programming_lan.Outcome.{Outcome, ok, ◌>>=◌}
use building_programming_lan.Value.{value, blocked, int32, waiting_for_write}
use building_programming_lan.Io.Context.{IoContext, new_io}
use building_programming_lan.Io.Write.{write_static_octets, get_write_buffer, handle_write, advance}

-- Each round executes the operation, offers the rest of the buffer and lets the consumer take up to
-- `k` bytes of it.
pub drain : Bytes → List ℕ → IoContext → Outcome (Bytes × IoContext)
drain contents [] ctx = ok ([], ctx)
drain contents (k ∷ ks) ctx =
    let offered = (write_static_octets contents ctx).1 in
    get_write_buffer offered >>= (λ bytes. handle_write offered k >>= (λ taken.
      drain contents ks taken.0 >>= (λ later. ok (take taken.1 bytes ++ later.0, later.1))))

pub total : List ℕ → ℕ
total [] = 0
total (k ∷ ks) = k + total ks

-- `handle_write` moves the iterator by what it counts, up to the end of the buffer.
pub advance_lem :
    (s : ℕ) (ctx : IoContext) (consumed : ℕ)
    → ctx.it ≤ length ctx.buffer
    → advance s ctx consumed ≡ (
      record ctx { it = ctx.it + min s (length ctx.buffer - ctx.it) },
      consumed + min s (length ctx.buffer - ctx.it),
    )
unfolding advance
advance_lem zero ctx consumed h = ground arith
advance_lem (suc s) ctx consumed h =
    ground (arith, advance_lem s (record ctx { it = suc ctx.it }) (suc consumed))

take-take-drop :
    (n m i : ℕ) (s : Bytes)
    → take (min n (length s - i)) (drop i s) ++ take m (drop (i + min n (length s - i)) s)
      ≡ take (n + m) (drop i s)
take-take-drop n m i s =
    rw (drop-drop i (min n (length s - i)) s, ← length-drop i s) (take-take n m (drop i s))

zero_add : (n : ℕ) → 0 + n ≡ n
zero_add n = omega arith

sum_min :
    (i k m n : ℕ)
    → i ≤ n
    → i + min k (n - i) + min m (n - (i + min k (n - i))) ≡ i + min (k + m) (n - i)
sum_min i k m n h = omega arith

-- Once the buffer holds the contents, a round takes the next bytes and moves the iterator.
module _ (contents : Bytes) (filled : length contents ≢ 0) where
  abbrev at : IoContext → ℕ → IoContext
  at ctx i = record ctx { buffer = contents; it = i; it_set = true }

  offer : (ctx : IoContext) (i : ℕ) → (write_static_octets contents (at ctx i)).1 ≡ at ctx i
  unfolding write_static_octets
  offer ctx i = ground arith

  offered_bytes : (ctx : IoContext) (i : ℕ) → get_write_buffer (at ctx i) ≡ ok (drop i contents)
  unfolding get_write_buffer
  offered_bytes ctx i = refl

  same_taken :
      (ctx : IoContext) {i j n m : ℕ}
      → i ≡ j
      → n ≡ m
      → ◌≡◌ {A = Outcome (IoContext × ℕ)} (ok (at ctx i, n)) (ok (at ctx j, m))
  same_taken ctx p q = cc

  take_bytes :
      (ctx : IoContext) (i k : ℕ)
      → i ≤ length contents
      → handle_write (at ctx i) k
        ≡ ok (at ctx (i + min k (length contents - i)), 0 + min k (length contents - i))
  unfolding handle_write
  take_bytes ctx i zero h = same_taken ctx (omega arith) (omega arith)
  take_bytes ctx i (suc k) h = ap ok (advance_lem (suc k) (at ctx i) 0 h)

  same_at :
      (ctx : IoContext) {s s' : Bytes} {i j : ℕ}
      → s ≡ s'
      → i ≡ j
      → ◌≡◌ {A = Outcome (Bytes × IoContext)} (ok (s, at ctx i)) (ok (s', at ctx j))
  same_at ctx p q = cc

  drain_begun :
      (ks : List ℕ) (ctx : IoContext) (i : ℕ)
      → i ≤ length contents
      → drain contents ks (at ctx i)
        ≡ ok (take (total ks) (drop i contents), at ctx (i + min (total ks) (length contents - i)))
  unfolding drain total
  drain_begun [] ctx i h = same_at ctx refl (omega arith)
  drain_begun (k ∷ ks) ctx i h =
      rw
        (
          offer ctx i,
          offered_bytes ctx i,
          take_bytes ctx i k h,
          drain_begun ks ctx (i + min k (length contents - i)) (omega arith),
        )
        (same_at ctx
          (ap
              (λ (j : ℕ).
                take j (drop i contents)
                ++ take (total ks) (drop (i + min k (length contents - i)) contents))
              (zero_add (min k (length contents - i)))
            ∙ take-take-drop k (total ks) i contents)
          (sum_min i k (total ks) (length contents) h))

  drain_start :
      (k : ℕ) (ks : List ℕ) → drain contents (k ∷ ks) new_io ≡ drain contents (k ∷ ks) (at new_io 0)
  unfolding drain get_write_buffer write_static_octets handle_write
  drain_start k ks = rw (offer new_io 0)

  -- At the end of the buffer the operation returns 0, and before it asks for a write.
  finish_at :
      (ctx : IoContext) (i n : ℕ)
      → i ≤ length contents
      → i ≡ 0 + min n (length contents - 0)
      → ctx.eof ≡ false
      → (write_static_octets contents (at ctx i)).0
        ≡ (if leb (length contents) n then value (int32 (pos 0)) else blocked waiting_for_write)
  unfolding write_static_octets
  finish_at ctx i n h e f = ground arith

-- WriteStaticOctets with contents that are not empty, from a fresh context: a consumer that takes
-- at most so many bytes a time gets the contents in order, up to the sum of those numbers, and
-- the operation then blocks if bytes are left and returns 0 if none are.
pub drain_in_order :
    (contents : Bytes) (k : ℕ) (ks : List ℕ)
    → length contents ≢ 0
    → (ctx : IoContext) × (drain contents (k ∷ ks) new_io
        ≡ ok (take (total (k ∷ ks)) contents, ctx))
      × ((write_static_octets contents ctx).0 ≡ (
          if leb (length contents) (total (k ∷ ks))
          then value (int32 (pos 0))
          else blocked waiting_for_write))
drain_in_order contents k ks h = (
  at contents h new_io (0 + min (total (k ∷ ks)) (length contents - 0)),
  drain_start contents h k ks ∙ drain_begun contents h (k ∷ ks) new_io 0 (omega arith),
  finish_at contents h new_io _ _ (omega arith) refl refl,
)
