-- ===== src/Collection/Transaction.antt =====
-- support/transactionalcontainer.hpp: `do_transaction` of several threads. A `std::shared_ptr` is an
-- address with its immutable content; an address that a thread may still hold is not used again.
use building_programming_lan.Prelude.{
  ℕ, suc, ◌<◌, ◌≡◌, ◌⊎◌, inl, inr, refl, sym, ap, ◌∙◌, subst, Bool, true, false, Option, some, List,
  [], ◌∷◌, if◌then◌else◌, ◌==◌, arith, Bool-cases, if_true, if_false, ==_iff,
}

-- `_container`, and the pointers that the threads have loaded.
pub record Shared (Container : Type 0) : Type 0 where
  pub pointer : ℕ
  pub content : Container
  pub loaded : List (ℕ × Container)

-- `_container.load()`
unfoldable pub load : {Container : Type 0} → Shared Container → Shared Container
load s = record s { loaded = (s.pointer, s.content) ∷ s.loaded }

-- `compare_exchange_weak`, which may also fail where the pointers are equal.
unfoldable pub compare_exchange :
    {Container : Type 0} → Bool → ℕ → Container → Shared Container → Shared Container
compare_exchange spurious expected replacement s =
    if spurious
    then s
    else if s.pointer == expected
    then record s { pointer = suc s.pointer; content = replacement }
    else s

-- A pointer that was loaded, with its content.
unfoldable pub Held : {Container : Type 0} → ℕ → Container → List (ℕ × Container) → Type 0
Held p c [] = ⊥
Held p c ((q, d) ∷ rest) = ((p ≡ q) × (c ≡ d)) ⊎ Held p c rest

-- The steps of any threads: each loads, or tries to put in place what its function made of a content
-- that it had loaded.
pub data Reaches {Container : Type 0} (initial : Container) : Shared Container → Type 0 where
  starts : Reaches initial (record { pointer = 0; content = initial; loaded = [] })
  loads : {s : Shared Container} → Reaches initial s → Reaches initial (load s)
  commits :
      {s : Shared Container} (f : Container → Option Container) (p : ℕ) (c d : Container)
      (spurious : Bool)
      → Reaches initial s
      → Held p c s.loaded
      → f c ≡ some d
      → Reaches initial (compare_exchange spurious p d s)

-- A loaded pointer is an old one, or the current one with the current content.
unfoldable pub Coherent : {Container : Type 0} → ℕ → Container → List (ℕ × Container) → Type 0
Coherent p c [] = Unit {0}
Coherent p c ((q, d) ∷ rest) = ((q < p) ⊎ ((q ≡ p) × (d ≡ c))) × Coherent p c rest

abbrev CoherentShared : {Container : Type 0} → Shared Container → Type 0
CoherentShared s = Coherent s.pointer s.content s.loaded

module _ {Container : Type 0} where
  older :
      (p : ℕ) (c d : Container) (l : List (ℕ × Container)) → Coherent p c l → Coherent (suc p) d l
  unfolding Coherent
  older p c d [] h = tt
  older p c d ((q, e) ∷ rest) (inl h, k) = (inl (omega arith), older p c d rest k)
  older p c d ((q, e) ∷ rest) (inr h, k) = (inl (ground arith), older p c d rest k)

  exchange-Coherent :
      (s : Shared Container) (spurious : Bool) (p : ℕ) (d : Container)
      → CoherentShared s
      → CoherentShared (compare_exchange spurious p d s)
  unfolding compare_exchange
  exchange-Coherent s true p d h = h
  exchange-Coherent s false p d h =
      if_coherent (s.pointer == p) (older s.pointer s.content d s.loaded h) h
    where
      if_coherent :
          (b : Bool)
          → Coherent (suc s.pointer) d s.loaded
          → CoherentShared s
          → CoherentShared (if b then record s { pointer = suc s.pointer; content = d } else s)
      if_coherent true x y = x
      if_coherent false x y = y

  Reaches-Coherent :
      (initial : Container) (s : Shared Container) → Reaches initial s → CoherentShared s
  unfolding Coherent load
  Reaches-Coherent initial _ starts = tt
  Reaches-Coherent initial _ (loads r) = (inr (refl, refl), Reaches-Coherent initial _ r)
  Reaches-Coherent initial _ (commits f p c d spurious r h e) =
      exchange-Coherent _ spurious p d (Reaches-Coherent initial _ r)

  Held-current :
      (p : ℕ) (c d : Container) (l : List (ℕ × Container)) → Coherent p c l → Held p d l → d ≡ c
  unfolding Coherent Held
  Held-current p c d [] h k = absurd k
  Held-current p c d ((q, e) ∷ rest) (inl h, i) (inl k) = absurd (ground arith)
  Held-current p c d ((q, e) ∷ rest) (inr h, i) (inl k) = k.1 ∙ h.1
  Held-current p c d ((q, e) ∷ rest) (h, i) (inr k) = Held-current p c d rest i k

  -- Whatever the threads have done, a commit of a transaction either leaves the container as it is or
  -- replaces its current content by what the function makes of that content: no update of another
  -- thread is lost.
  pub commit_lem :
      (initial : Container) (s : Shared Container) (f : Container → Option Container) (p : ℕ)
      (c d : Container) (spurious : Bool)
      → Reaches initial s
      → Held p c s.loaded
      → f c ≡ some d
      → (compare_exchange spurious p d s ≡ s)
        ⊎ ((f s.content ≡ some d) × ((compare_exchange spurious p d s).content ≡ d))
  unfolding compare_exchange
  commit_lem initial s f p c d true r h e = inl refl
  commit_lem initial s f p c d false r h e = elim (Bool-cases (s.pointer == p)) [
    | inl b ↦
        let same =
          Held-current s.pointer s.content c s.loaded (Reaches-Coherent initial s r)
            (subst (λ (q : ℕ). Held q c s.loaded) (sym ((==_iff s.pointer p).0 b)) h) in
        inr (ap f (sym same) ∙ e, ap (λ (x : Shared Container). x.content) (if_true _ _ b))
    | inr b ↦ inl (if_false _ _ b)
  ]
