-- ===== src/Malloc.antt =====
-- The allocator of src/impl/kernel/stdlib.c over the pages of src/impl/kernel/mmu.c.
pub mod Chain
pub mod Alloc
pub mod Release
pub mod Blocks
pub mod Realloc
mod Tests
use nans_os.Base.{
  ℕ, ◌+◌, ◌-◌, ◌*◌, ◌/◌, ◌%◌, ◌^◌, Bool, true, false, ◌&&◌, Option, none, some, List, [], ◌∷◌, ◌++◌,
  ltb, leb, ◌==◌, if◌then◌else◌,
}
use nans_os.Cstring.{Mem, memcpy, memset}

-- `struct MemBlock` at the address `addr`. The chain is the list of the blocks, so the field `next`
-- is the rest of the list.
pub record MemBlock : Type 0 where
  pub addr : ℕ
  pub size : ℕ
  pub is_free : Bool

-- `sizeof(struct MemBlock)`: a size_t, an int with its padding, a pointer.
abbrev pub header : ℕ
header = 24

abbrev pub page_size : ℕ
page_size = 4096

abbrev pub min_alloc : ℕ
min_alloc = 4096

abbrev pub size_mod : ℕ
size_mod = 2 ^ 64

-- `heap_start` is the chain (NULL when empty), `next_free_page` the variable of mmu.c, `mem` the
-- bytes of the payloads; the headers are kept in `chain`.
pub record Heap : Type 0 where
  pub chain : List MemBlock
  pub next_free_page : ℕ
  pub mem : Mem

unfoldable pub mmu_alloc_page : Heap → ℕ × Heap
mmu_alloc_page h = (
  h.next_free_page,
  record h {
    next_free_page = (h.next_free_page + page_size) % size_mod;
    mem = memset h.next_free_page 0 page_size h.mem;
  },
)

abbrev pub init_block : ℕ → ℕ → MemBlock
init_block addr size = record {
  addr = addr;
  size = (size + size_mod - header) % size_mod;
  is_free = true;
}

-- `current->is_free && current->size >= size`
abbrev pub fits : ℕ → MemBlock → Bool
fits size b = b.is_free && leb size b.size

-- The new block behind the first `size` bytes of the payload.
abbrev pub rest_block : MemBlock → ℕ → MemBlock
rest_block b size = record {
  addr = (b.addr + header + size) % size_mod;
  size = (b.size + 2 * size_mod - size - header) % size_mod;
  is_free = true;
}

-- What `split_block` and the mark `is_free = 0` leave of a block.
unfoldable pub split_block : MemBlock → ℕ → List MemBlock
split_block b size =
    if leb ((size + header + 32) % size_mod) b.size
    then record b { size = size } ∷ rest_block b size ∷ []
    else b ∷ []

unfoldable pub take_block : MemBlock → ℕ → List MemBlock
take_block b size = split_block (record b { is_free = false }) size

-- `find_free_block` and what follows when it finds one: the payload address and the new chain.
unfoldable pub alloc_in : ℕ → List MemBlock → Option (ℕ × List MemBlock)
alloc_in size [] = none
alloc_in size (b ∷ bs) =
    if fits size b
    then some (b.addr + header, take_block b size ++ bs)
    else elim (alloc_in size bs) [ none ↦ none | some (p, bs') ↦ some (p, b ∷ bs') ]

-- `(size + 7) & ~7` in a size_t.
unfoldable pub align8 : ℕ → ℕ
align8 size = (size + 7) % size_mod / 8 * 8

abbrev pub alloc_size : ℕ → ℕ
alloc_size size =
    let total = (size + header) % size_mod in if ltb total min_alloc then min_alloc else total

-- A page for a block behind the chain, or for the first block: the case of no free block.
unfoldable pub extend : ℕ → Heap → ℕ × Heap
extend size h =
    let (page, h') = mmu_alloc_page h in
    if page == 0 then (0, h') else (
      page + header,
      record h' { chain = h.chain ++ take_block (init_block page (alloc_size size)) size },
    )

-- 0 is NULL.
unfoldable pub malloc : ℕ → Heap → ℕ × Heap
malloc size h = if size == 0 then (0, h) else elim (alloc_in (align8 size) h.chain) [
  | none ↦ extend (align8 size) h
  | some (p, c) ↦ (p, record h { chain = c })
]

-- The block in front is marked free and merged with the next one if that is free.
unfoldable pub release : MemBlock → List MemBlock → List MemBlock
release b [] = record b { is_free = true } ∷ []
release b (n ∷ bs) =
    if n.is_free
    then record b { is_free = true; size = (b.size + (header + n.size)) % size_mod } ∷ bs
    else record b { is_free = true } ∷ n ∷ bs

-- `none`: no block of the chain has its payload there, and the code writes to whatever is.
unfoldable pub free_in : ℕ → List MemBlock → Option (List MemBlock)
free_in ptr [] = none
free_in ptr (b ∷ bs) =
    if b.addr + header == ptr
    then some (release b bs)
    else elim (free_in ptr bs) [ none ↦ none | some bs' ↦ some (b ∷ bs') ]

unfoldable pub free : ℕ → Heap → Option Heap
free ptr h =
    if ptr == 0
    then some h
    else elim (free_in ptr h.chain) [ none ↦ none | some c ↦ some (record h { chain = c }) ]

unfoldable pub calloc : ℕ → ℕ → Heap → ℕ × Heap
calloc nmemb size h =
    let total = nmemb * size % size_mod in
    let (ptr, h') = malloc total h in
    if ptr == 0 then (0, h') else (ptr, record h' { mem = memset ptr 0 total h'.mem })

-- The block whose payload is at `ptr`, and the chain with that block split.
unfoldable pub find_block : ℕ → List MemBlock → Option MemBlock
find_block ptr [] = none
find_block ptr (b ∷ bs) = if b.addr + header == ptr then some b else find_block ptr bs

unfoldable pub split_in : ℕ → ℕ → List MemBlock → List MemBlock
split_in ptr size [] = []
split_in ptr size (b ∷ bs) =
    if b.addr + header == ptr then split_block b size ++ bs else b ∷ split_in ptr size bs

-- The new block is taken before the bytes of the old one are copied and the old one is freed.
unfoldable pub move_block : ℕ → MemBlock → ℕ → Heap → Option (ℕ × Heap)
move_block ptr b size h =
    let (new_ptr, h1) = malloc size h in
    if new_ptr == 0
    then some (0, h1)
    else elim (free ptr (record h1 { mem = memcpy new_ptr ptr b.size h1.mem })) [
      | none ↦ none
      | some h2 ↦ some (new_ptr, h2)
    ]

unfoldable pub realloc : ℕ → ℕ → Heap → Option (ℕ × Heap)
realloc ptr size h =
    if ptr == 0
    then some (malloc size h)
    else if size == 0
    then elim (free ptr h) [ none ↦ none | some h' ↦ some (0, h') ]
    else elim (find_block ptr h.chain) [
      | none ↦ none
      | some b ↦
          if leb size b.size
          then some (ptr, record h { chain = split_in ptr size h.chain })
          else move_block ptr b size h
    ]
