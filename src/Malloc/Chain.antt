-- ===== src/Malloc/Chain.antt =====
-- The shape of the allocator's chain: blocks in the order of their addresses that do not overlap.
use nans_os.Base.{ℕ, ◌+◌, ◌^◌, ◌≤◌, ◌≡◌, List, [], ◌∷◌, ◌++◌, arith, if◌then◌else◌}
use nans_os.Malloc.{MemBlock, header, Heap, split_block}

-- The blocks lie between `lo` and `hi`, each behind the payload of the one before.
abbrev pub Chain : ℕ → List MemBlock → ℕ → Type 0
Chain lo [] hi = lo ≤ hi
Chain lo (b ∷ bs) hi = (lo ≤ b.addr) × Chain (b.addr + header + b.size) bs hi

-- The blocks that are in use, in order.
abbrev pub used : List MemBlock → List MemBlock
used [] = []
used (b ∷ bs) = let rest = used bs in if b.is_free then rest else b ∷ rest

abbrev pub heap_base : ℕ
heap_base = 0x40_0000

-- Half the address space, far beyond any memory that the kernel is given.
abbrev pub top : ℕ
top = 2 ^ 63

pub record IsValid (h : Heap) : Type 0 where
  pub blocks : Chain heap_base h.chain h.next_free_page
  pub bounded : h.next_free_page ≤ top

pub Chain-weaken :
    (lo lo' : ℕ) (bs : List MemBlock) (hi : ℕ) → lo' ≤ lo → Chain lo bs hi → Chain lo' bs hi
Chain-weaken lo lo' [] hi h c = omega arith
Chain-weaken lo lo' (b ∷ bs) hi h c = (omega arith, c.1)

pub Chain-le : (lo : ℕ) (bs : List MemBlock) (hi : ℕ) → Chain lo bs hi → lo ≤ hi
Chain-le lo [] hi c = c
Chain-le lo (b ∷ bs) hi c = omega (arith, Chain-le (b.addr + header + b.size) bs hi c.1)

pub Chain-append :
    (lo : ℕ) (bs cs : List MemBlock) (mid hi : ℕ)
    → Chain lo bs mid
    → Chain mid cs hi
    → Chain lo (bs ++ cs) hi
Chain-append lo [] cs mid hi c d = Chain-weaken mid lo cs hi c d
Chain-append lo (b ∷ bs) cs mid hi c d =
    (c.0, Chain-append (b.addr + header + b.size) bs cs mid hi c.1 d)

-- Splitting a block keeps its place in the chain.
pub Chain-split :
    (b : MemBlock) (size lo hi : ℕ)
    → lo ≤ b.addr
    → b.addr + header + b.size ≤ hi
    → hi ≤ top
    → size ≤ b.size
    → Chain lo (split_block b size) hi
unfolding split_block
Chain-split b size lo hi h k m n = ground arith

-- What a successful request means: one more block in use, large enough, at the pointer's place; the
-- blocks that were in use are as they were.
pub record Granted (size p : ℕ) (old new : List MemBlock) : Type 0 where
  pub before : List MemBlock
  pub after : List MemBlock
  pub block : MemBlock
  pub was : used old ≡ before ++ after
  pub is_now : used new ≡ before ++ (block ∷ after)
  pub place : block.addr + header ≡ p
  pub large : size ≤ block.size
