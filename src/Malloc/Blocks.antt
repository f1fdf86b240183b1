-- ===== src/Malloc/Blocks.antt =====
-- Blocks of a chain: where they lie, and that a payload's address leads to its block.
use nans_os.Base.{
  ℕ, ◌+◌, ◌≤◌, ◌≡◌, refl, sym, ap, ◌∙◌, arith, true, false, ◌⊎◌, inl, inr, List, [], ◌∷◌, ◌++◌,
  some, ◌==◌, Bool-cases, eq_of_some,
}
use mathlib.Core.Path.{subst}
use nans_os.Malloc.{MemBlock, header, find_block}
use nans_os.Malloc.Chain.{Chain, used, Chain-le}

abbrev pub In : MemBlock → List MemBlock → Type 0
In b [] = ⊥
In b (x ∷ bs) = (x ≡ b) ⊎ In b bs

pub find_block-In :
    (ptr : ℕ) (bs : List MemBlock) (b : MemBlock)
    → find_block ptr bs ≡ some b
    → In b bs × (b.addr + header ≡ ptr)
unfolding find_block
find_block-In ptr [] b h = absurd (ground arith)
find_block-In ptr (x ∷ bs) b h = elim (Bool-cases (x.addr + header == ptr)) [
  | inl e ↦
      let eq : x ≡ b = eq_of_some (rw e at h) in
      (inl eq, ap (λ (y : MemBlock). y.addr + header) (sym eq) ∙ ground arith)
  | inr e ↦ let (i, p) = find_block-In ptr bs b (rw e at h) in (inr i, p)
]

pub In-used : (b : MemBlock) (bs : List MemBlock) → In b bs → b.is_free ≡ false → In b (used bs)
In-used b [] i u = i
In-used b (x ∷ bs) (inl e) u =
    let u' : x.is_free ≡ false = ap (λ (y : MemBlock). y.is_free) e ∙ u in simp u' (inl e)
In-used b (x ∷ bs) (inr i) u = elim (Bool-cases x.is_free) [
  | inl f ↦ simp f (In-used b bs i u)
  | inr f ↦ simp f (inr (In-used b bs i u))
]

-- What holds of the blocks in use behind a block, and of those from it on.
abbrev WithUse : MemBlock → List MemBlock → Type 0
WithUse b bs = In b bs × (b.is_free ≡ false)

used_from-In :
    (b x : MemBlock) (bs : List MemBlock)
    → x.is_free ≡ false
    → (In b (used bs) → WithUse b bs)
    → In b (x ∷ used bs)
    → WithUse b (x ∷ bs)
used_from-In b x bs f rest (inl e) = (inl e, ap (λ (y : MemBlock). y.is_free) (sym e) ∙ f)
used_from-In b x bs f rest (inr j) = let (k, u) = rest j in (inr k, u)

pub used-In : (b : MemBlock) (bs : List MemBlock) → In b (used bs) → WithUse b bs
used-In b [] i = absurd i
used-In b (x ∷ bs) i = elim (Bool-cases x.is_free) [
  | inl f ↦ let (j, u) = used-In b bs (simp f at i) in (inr j, u)
  | inr f ↦ used_from-In b x bs f (λ j. used-In b bs j) (simp f at i)
]

pub In-insert : (b c : MemBlock) (xs ys : List MemBlock) → In b (xs ++ ys) → In b (xs ++ (c ∷ ys))
In-insert b c [] ys i = inr i
In-insert b c (x ∷ xs) ys (inl e) = inl e
In-insert b c (x ∷ xs) ys (inr i) = inr (In-insert b c xs ys i)

pub In-middle : (c : MemBlock) (xs ys : List MemBlock) → In c (xs ++ (c ∷ ys))
In-middle c [] ys = inl refl
In-middle c (x ∷ xs) ys = inr (In-middle c xs ys)

-- The end of a block's payload.
abbrev pub end_of : MemBlock → ℕ
end_of b = b.addr + header + b.size

pub In-bounds :
    (b : MemBlock) (lo hi : ℕ) (bs : List MemBlock)
    → Chain lo bs hi
    → In b bs
    → (lo ≤ b.addr) × (end_of b ≤ hi)
In-bounds b lo hi [] c i = absurd i
In-bounds b lo hi (x ∷ bs) c (inl e) =
    subst (λ (y : MemBlock). (lo ≤ y.addr) × (end_of y ≤ hi)) e (c.0, Chain-le (end_of x) bs hi c.1)
In-bounds b lo hi (x ∷ bs) c (inr i) =
    let (l, r) = In-bounds b (end_of x) hi bs c.1 i in (omega (arith, l, c.0), r)

-- A block of a chain is the one that its payload's address leads to.
pub find_block_self :
    (b : MemBlock) (lo hi : ℕ) (bs : List MemBlock)
    → Chain lo bs hi
    → In b bs
    → find_block (b.addr + header) bs ≡ some b
unfolding find_block
find_block_self b lo hi [] c i = absurd i
find_block_self b lo hi (x ∷ bs) c (inl e) =
    let q : (x.addr + header == b.addr + header) ≡ true =
      ground (arith, ap (λ (y : MemBlock). y.addr) e) in
    rw q (ap some e)
find_block_self b lo hi (x ∷ bs) c (inr i) =
    let (l, _) = In-bounds b (end_of x) hi bs c.1 i in
    let q : (x.addr + header == b.addr + header) ≡ false = ground (arith, l) in
    rw q (find_block_self b (end_of x) hi bs c.1 i)

-- Two blocks of a chain are one, or one lies behind the other.
pub In-apart :
    (b c : MemBlock) (lo hi : ℕ) (bs : List MemBlock)
    → Chain lo bs hi
    → In b bs
    → In c bs
    → (b ≡ c) ⊎ ((end_of b ≤ c.addr) ⊎ (end_of c ≤ b.addr))
In-apart b c lo hi [] k i j = absurd i
In-apart b c lo hi (x ∷ bs) k (inl e) (inl f) = inl (sym e ∙ f)
In-apart b c lo hi (x ∷ bs) k (inl e) (inr j) =
    let (l, _) = In-bounds c (end_of x) hi bs k.1 j in
    inr (inl (subst (λ (y : MemBlock). end_of y ≤ c.addr) e l))
In-apart b c lo hi (x ∷ bs) k (inr i) (inl f) =
    let (l, _) = In-bounds b (end_of x) hi bs k.1 i in
    inr (inr (subst (λ (y : MemBlock). end_of y ≤ b.addr) f l))
In-apart b c lo hi (x ∷ bs) k (inr i) (inr j) = In-apart b c (end_of x) hi bs k.1 i j
