-- ===== src/Malloc/Tests.antt =====
-- Heaps on which the theorems of the allocator are run.
use nans_os.Base.{◌≡◌, refl, arith, true, false, none, some, [], ◌∷◌}
use nans_os.Malloc.{MemBlock, Heap, malloc, free, find_block, alloc_in, align8}
use nans_os.Malloc.Chain.{IsValid, Granted}
use nans_os.Malloc.Alloc.{malloc-Granted}
use nans_os.Malloc.Release.{free-Granted}

-- The heap before the first request.
abbrev start : Heap
start = record { chain = []; next_free_page = 0x40_0000; mem = λ _. 0 }

start-IsValid : IsValid start
start-IsValid = record { blocks = omega arith; bounded = omega arith }

-- A page with one block in use and one free block.
abbrev used_block : MemBlock
used_block = record { addr = 0x40_0000; size = 104; is_free = false }

abbrev one_used : Heap
one_used = record {
  chain = used_block ∷ (record { addr = 0x40_0080; size = 3944; is_free = true }) ∷ [];
  next_free_page = 0x40_1000;
  mem = λ _. 0;
}

one_used-IsValid : IsValid one_used
one_used-IsValid = record { blocks = omega arith; bounded = omega arith }

malloc-Granted_example :
    IsValid (malloc 100 one_used).1
    × Granted 100 (malloc 100 one_used).0 one_used.chain (malloc 100 one_used).1.chain
malloc-Granted_example =
    malloc-Granted 100 one_used (one_used-IsValid, omega arith) (omega arith) (omega arith)

used_block_found : find_block 0x40_0018 one_used.chain ≡ some used_block
unfolding find_block
used_block_found = refl

free-Granted_example :
    (h' : Heap) × (free 0x40_0018 one_used ≡ some h')
    × IsValid h'
    × Granted 104 0x40_0018 h'.chain one_used.chain
    × (h'.mem ≡ one_used.mem)
    × (h'.next_free_page ≡ one_used.next_free_page)
free-Granted_example =
    free-Granted 0x40_0018 one_used used_block one_used-IsValid (λ e. ground arith) used_block_found
      refl

start_has_none : alloc_in (align8 5144) start.chain ≡ none
unfolding alloc_in
start_has_none = refl
