-- ===== src/Malloc/Release.antt =====
-- What `free` of stdlib.c takes back, and what a request beyond a page does.
use nans_os.Base.{
  ℕ, ◌+◌, ◌%◌, ◌^◌, ◌≤◌, ◌<◌, ◌≡◌, refl, ap, ◌∙◌, ◌≢◌, inl, inr, true, false, none, some, List, [],
  ◌∷◌, arith, ◌==◌, ==_iff, Bool-cases, eq_of_some,
}
use nans_os.Malloc.{
  MemBlock, header, size_mod, Heap, release, free_in, free, find_block, alloc_in, align8, malloc,
  extend, mmu_alloc_page,
}
use nans_os.Malloc.Chain.{Chain, used, IsValid, Chain-weaken, Chain-le, Granted, heap_base, top}
use nans_os.Malloc.Alloc.{page_ne_zero, Granted-cons}
use mathlib.Core.Path.{subst}

Chain-release :
    (b : MemBlock) (lo hi : ℕ) (bs : List MemBlock)
    → Chain lo (b ∷ bs) hi
    → hi ≤ top
    → Chain lo (release b bs) hi
unfolding release
Chain-release b lo hi [] c m = c
Chain-release b lo hi (n ∷ bs) c m = elim (Bool-cases n.is_free) [
  | inl e ↦
      let e1 : n.addr + header + n.size ≤ hi = Chain-le (n.addr + header + n.size) bs hi c.1.1 in
      let w : (b.size + (header + n.size)) % size_mod ≡ b.size + (header + n.size) = omega arith in
      rw (e, w)
        (
          c.0,
          Chain-weaken (n.addr + header + n.size) (b.addr + header + (b.size + (header + n.size)))
              bs hi (omega arith) c.1.1,
        )
  | inr e ↦ rw e c
]

used-release : (b : MemBlock) (bs : List MemBlock) → used (release b bs) ≡ used bs
unfolding release
used-release b [] = refl
used-release b (n ∷ bs) = elim (Bool-cases n.is_free) [ inl e ↦ simp e | inr e ↦ simp e ]

-- Freeing a block in use is a grant read backwards.
record Freed (lo hi ptr : ℕ) (b : MemBlock) (bs : List MemBlock) : Type 0 where
  chain : List MemBlock
  found : free_in ptr bs ≡ some chain
  ordered : Chain lo chain hi
  grant : Granted b.size ptr chain bs

Freed-here :
    (ptr lo hi : ℕ) (x : MemBlock) (bs : List MemBlock)
    → Chain lo (x ∷ bs) hi
    → hi ≤ top
    → (x.addr + header == ptr) ≡ true
    → x.is_free ≡ false
    → Freed lo hi ptr x (x ∷ bs)
Freed-here ptr lo hi x bs c m e u = record {
  chain = release x bs;
  found = unfold free_in in rw e;
  ordered = Chain-release x lo hi bs c m;
  grant = record {
    before = [];
    after = used bs;
    block = x;
    was = used-release x bs;
    is_now = simp u;
    place = (==_iff (x.addr + header) ptr).0 e;
    large = omega arith;
  };
}

Freed-there :
    (ptr lo hi : ℕ) (b x : MemBlock) (bs : List MemBlock)
    → lo ≤ x.addr
    → (x.addr + header == ptr) ≡ false
    → Freed (x.addr + header + x.size) hi ptr b bs
    → Freed lo hi ptr b (x ∷ bs)
Freed-there ptr lo hi b x bs le e r = record {
  chain = x ∷ r.chain;
  found = unfold free_in in rw (e, r.found);
  ordered = (le, r.ordered);
  grant = Granted-cons x b.size ptr r.chain bs r.grant;
}

free_in-Freed :
    (ptr lo hi : ℕ) (b : MemBlock) (bs : List MemBlock)
    → Chain lo bs hi
    → hi ≤ top
    → find_block ptr bs ≡ some b
    → b.is_free ≡ false
    → Freed lo hi ptr b bs
unfolding find_block
free_in-Freed ptr lo hi b [] c m f u = absurd (ground arith)
free_in-Freed ptr lo hi b (x ∷ bs) c m f u = elim (Bool-cases (x.addr + header == ptr)) [
  | inl e ↦
      let eq : x ≡ b = eq_of_some (rw e at f) in
      subst (λ y. Freed lo hi ptr y (x ∷ bs)) eq
        (Freed-here ptr lo hi x bs c m e (ap (λ y. y.is_free) eq ∙ u))
  | inr e ↦
      Freed-there ptr lo hi b x bs c.0 e
        (free_in-Freed ptr (x.addr + header + x.size) hi b bs c.1 m (rw e at f) u)
]

-- With a chain in order, `free` of the payload of a block in use returns, keeps the chain in order
-- and without overlaps, and takes exactly that block out of use: the blocks in use before are those
-- after and that one. The bytes and the pages are untouched.
pub free-Granted :
    (ptr : ℕ) (h : Heap) (b : MemBlock)
    → IsValid h
    → ptr ≢ 0
    → find_block ptr h.chain ≡ some b
    → b.is_free ≡ false
    → (h' : Heap) × (free ptr h ≡ some h')
      × IsValid h'
      × Granted b.size ptr h'.chain h.chain
      × (h'.mem ≡ h.mem)
      × (h'.next_free_page ≡ h.next_free_page)
unfolding free
free-Granted ptr h b v ne f u =
    let r : Freed heap_base h.next_free_page ptr b h.chain =
      free_in-Freed ptr heap_base h.next_free_page b h.chain v.blocks v.bounded f u in
    let z : (ptr == 0) ≡ false = ground arith in
    (
      record h { chain = r.chain },
      rw (z, r.found),
      record { blocks = r.ordered; bounded = v.bounded },
      r.grant,
      refl,
      refl,
    )

alloc_oversize :
    (size : ℕ)
    → 4072 < size
    → size ≤ 2 ^ 62
    → (align8 size + header < size_mod)
      × (size ≤ align8 size)
      × (4072 < align8 size)
      × (align8 size ≤ 2 ^ 62 + 8)
unfolding align8
alloc_oversize size h k = omega arith

-- With a chain in order, a request for more than 4072 bytes (and at most 2^62) that no free block
-- meets is granted a block behind the last page handed out, but only one page is taken for it: the
-- page handed out next begins inside the payload.
pub malloc-oversize :
    (size : ℕ) (h : Heap)
    → IsValid h
    → 4072 < size
    → size ≤ 2 ^ 62
    → alloc_in (align8 size) h.chain ≡ none
    → let (p, h') = malloc size h in
      (p ≡ h.next_free_page + header) × (h'.next_free_page < p + size)
unfolding malloc extend mmu_alloc_page
malloc-oversize size h v big small none_fits =
    let z : (size == 0) ≡ false = ground arith in
    let low : heap_base ≤ h.next_free_page = Chain-le heap_base h.chain h.next_free_page v.blocks in
    rw (z, none_fits) (rw (page_ne_zero h.next_free_page low) (refl, omega (arith, v.bounded)))
