-- ===== src/Bytes/Search.antt =====
-- Where `find` finds, and what the bytes behind a match cannot change.
use building_programming_lan.Prelude.{
  ℕ, suc, pred, ◌+◌, ◌<◌, ◌≤◌, ◌≡◌, ◌≢◌, refl, true, false, some, [], ◌∷◌, ◌++◌, length, arith,
  append_assoc, length-append,
}
use building_programming_lan.Bytes.{Bytes, starts_with, starts_with-append, find}

-- The text goes on behind a match.
pub starts_with-extend :
    (n s more : Bytes) → starts_with n s ≡ true → starts_with n (s ++ more) ≡ true
unfolding starts_with
starts_with-extend [] s more h = refl
starts_with-extend (c ∷ n) [] more h = absurd (ground arith)
starts_with-extend (c ∷ n) (x ∷ s) more h = ground (arith, starts_with-extend n s more)

-- A longer text that shows a match in its first bytes had it there already.
pub starts_with-shrink :
    (n s more : Bytes) → length n ≤ length s → starts_with n (s ++ more) ≡ starts_with n s
unfolding starts_with
starts_with-shrink [] s more h = refl
starts_with-shrink (c ∷ n) [] more h = absurd (omega arith)
starts_with-shrink (c ∷ n) (x ∷ s) more h = ground (arith, starts_with-shrink n s more)

starts_with-bound : (n s : Bytes) → starts_with n s ≡ true → length n ≤ length s
unfolding starts_with
starts_with-bound [] s h = omega arith
starts_with-bound (c ∷ n) [] h = absurd (ground arith)
starts_with-bound (c ∷ n) (x ∷ s) h = ground (arith, starts_with-bound n s)

-- A match lies within the text.
pub find-bound : (n s : Bytes) (k : ℕ) → find n s ≡ some k → k + length n ≤ length s
unfolding find
find-bound n [] k h = ground (arith, starts_with-bound n [])
find-bound n (x ∷ s) k h = ground (arith, starts_with-bound n (x ∷ s), find-bound n s (pred k))

-- What follows the first match does not move it.
pub find-extend : (n s more : Bytes) (k : ℕ) → find n s ≡ some k → find n (s ++ more) ≡ some k
unfolding find
find-extend [] [] [] k h = h
find-extend [] [] (y ∷ more) k h = unfold starts_with in h
find-extend (c ∷ n) [] more k h = absurd (unfold starts_with in ground arith)
find-extend n (x ∷ s) more k h = ground (
  arith,
  starts_with-extend n (x ∷ s) more,
  starts_with-shrink n (x ∷ s) more,
  find-bound n s (pred k),
  find-extend n s more (pred k),
)

pub starts_with-prefix : (a b s : Bytes) → starts_with a s ≡ false → starts_with (a ++ b) s ≡ false
unfolding starts_with
starts_with-prefix [] b s h = absurd (ground arith)
starts_with-prefix (c ∷ a) b [] h = refl
starts_with-prefix (c ∷ a) b (x ∷ s) h = ground (arith, starts_with-prefix a b s)

pub starts_with-cancel : (a b s : Bytes) → starts_with (a ++ b) (a ++ s) ≡ starts_with b s
unfolding starts_with
starts_with-cancel [] b s = refl
starts_with-cancel (c ∷ a) b s = ground (arith, starts_with-cancel a b s)

-- The byte is not in the text.
abbrev pub Lacks : ℕ → Bytes → Type 0
Lacks c [] = Unit {0}
Lacks c (x ∷ s) = (x ≢ c) × Lacks c s

-- A needle that ends in `c` does not begin before the first `c` allows.
starts_with_early :
    (c : ℕ) (pre y z : Bytes)
    → Lacks c y
    → length pre < length y
    → starts_with (pre ++ c ∷ []) (y ++ z) ≡ false
unfolding starts_with
starts_with_early c pre [] z f h = absurd (omega arith)
starts_with_early c [] (y ∷ ys) z f h = ground arith
starts_with_early c (p ∷ pre) (y ∷ ys) z f h = ground (arith, starts_with_early c pre ys z f.1)

pub Lacks-append : (c : ℕ) (x y : Bytes) → Lacks c x → Lacks c y → Lacks c (x ++ y)
Lacks-append c [] y f g = g
Lacks-append c (a ∷ x) y f g = (f.0, Lacks-append c x y f.1 g)

find_front : (n s : Bytes) → starts_with n s ≡ true → find n s ≡ some 0
unfolding find
find_front n [] h = rw h
find_front n (x ∷ s) h = rw h

positive : (n s : Bytes) (k : ℕ) → starts_with n s ≡ false → find n s ≡ some k → 0 < k
unfolding find
positive n [] k h e = ground arith
positive n (x ∷ s) k h e = ground arith

find_later :
    (n s : Bytes) (x k : ℕ)
    → starts_with n (x ∷ s) ≡ false
    → find n s ≡ some k
    → find n (x ∷ s) ≡ some (suc k)
unfolding find
find_later n s x k h e = rw (h, e)

-- A marker `pre ++ c`, whose last byte comes nowhere before.
module _ (c : ℕ) (pre : Bytes) (fp : Lacks c pre) where
  abbrev marker : Bytes
  marker = pre ++ c ∷ []

  not_before :
      (u w z : Bytes) (x : ℕ)
      → Lacks c (x ∷ w)
      → starts_with (marker ++ u) (x ∷ (w ++ (marker ++ z))) ≡ false
  not_before u w z x f = starts_with-prefix marker u _ (
      rw (append_assoc pre (c ∷ []) z, ← append_assoc w pre (c ∷ z))
        (starts_with_early c pre (x ∷ (w ++ pre)) (c ∷ z) (f.0, Lacks-append c w pre f.1 fp)
          (omega (arith, length-append w pre))))

  -- The first place of a needle that begins with the marker.
  pub find-marker :
      (u w z : Bytes) → Lacks c w → find (marker ++ u) (w ++ ((marker ++ u) ++ z)) ≡ some (length w)
  find-marker u [] z f = find_front (marker ++ u) _ (starts_with-append (marker ++ u) z)
  find-marker u (x ∷ w) z f =
      find_later (marker ++ u) _ x (length w)
        (rw (append_assoc marker u z) (not_before u w (u ++ z) x f)) (find-marker u w z f.1)

  -- Where the marker goes on differently, such a needle comes later or nowhere.
  pub find_past_marker :
      (u w z : Bytes) (k : ℕ)
      → Lacks c w
      → starts_with u z ≡ false
      → find (marker ++ u) (w ++ (marker ++ z)) ≡ some k
      → length w < k
  unfolding find
  find_past_marker u [] z k f h e =
      positive _ (marker ++ z) k (rw (starts_with-cancel marker u z) h) e
  find_past_marker u (x ∷ w) z k f h e =
      ground (arith, not_before u w z x f, find_past_marker u w z (pred k) f.1 h)

pub Lacks-split : (c : ℕ) (x y : Bytes) → Lacks c (x ++ y) → Lacks c x × Lacks c y
Lacks-split c [] y f = (tt, f)
Lacks-split c (a ∷ x) y f = let (g, h) = Lacks-split c x y f.1 in ((f.0, g), h)
