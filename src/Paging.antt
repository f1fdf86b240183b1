-- ===== src/Paging.antt =====
-- The page tables of src/impl/kernel/mmu.c and mmu.h.
pub mod Entries
pub mod Tables
pub mod Lookup
pub mod Stores
pub mod Ensure
pub mod Walk
pub mod Mapping
pub mod Unmapping
mod Tests
use nans_os.Base.{
  ℕ, zero, suc, ◌+◌, ◌*◌, ◌/◌, ◌%◌, ◌^◌, Bool, true, false, not, ◌&&◌, Option, none, some, bit_or,
  ltb, leb, ◌==◌, if◌then◌else◌,
}

-- `word` is the memory as 64-bit words, by the address of their first byte. `cr3` is the register.
pub record Mmu : Type 0 where
  pub cr3 : ℕ
  pub next_free_page : ℕ
  pub word : ℕ → ℕ

abbrev pub table_size : ℕ
table_size = 4096

-- `entry & PAGE_PRESENT`, `entry & PAGE_HUGE` and `entry & ~0xFFF`.
abbrev pub is_present : ℕ → Bool
is_present entry = entry % 2 == 1

abbrev pub is_huge : ℕ → Bool
is_huge entry = entry / 128 % 2 == 1

abbrev pub frame_of : ℕ → ℕ
frame_of entry = entry / 4096 * 4096

-- `(virt_addr >> (12 + 9 * level)) & 0x1FF`: the index in the page table (level 0), the page
-- directory (1), the page directory pointers (2) and the root table (3).
abbrev pub index : ℕ → ℕ → ℕ
index zero virt = virt / 2 ^ 12 % 512
index (suc zero) virt = virt / 2 ^ 21 % 512
index (suc (suc zero)) virt = virt / 2 ^ 30 % 512
index (suc (suc (suc _))) virt = virt / 2 ^ 39 % 512

-- The address of an entry of a table.
abbrev pub entry_at : ℕ → ℕ → ℕ
entry_at table i = table + 8 * i

unfoldable pub put_entry : ℕ → ℕ → Mmu → Mmu
put_entry at entry m = record m { word = λ a. if a == at then entry else m.word a }

-- `mmu_alloc_page` as it acts on words: the page is filled with zeros. (The second `memset` at its
-- calls fills it again.)
unfoldable pub alloc_table : Mmu → Mmu
alloc_table m = record m {
  next_free_page = (m.next_free_page + table_size) % 2 ^ 64;
  word =
      λ a. if leb m.next_free_page a && ltb a (m.next_free_page + table_size) then 0 else m.word a;
}

-- One `Ensure ... exists` block: the state in which the entry leads to a table.
unfoldable pub ensure : ℕ → ℕ → ℕ → Mmu → Mmu
ensure table i flags m =
    if is_present (m.word (entry_at table i))
    then m
    else put_entry (entry_at table i) (bit_or m.next_free_page flags) (alloc_table m)

-- The table that an entry leads to.
abbrev pub next_table : ℕ → ℕ → Mmu → ℕ
next_table table i m = frame_of (m.word (entry_at table i))

unfoldable pub mmu_map_page : ℕ → ℕ → ℕ → Mmu → Mmu
mmu_map_page phys virt flags m =
    if ltb virt 0x400000
    then m
    else let m1 = ensure m.cr3 (index 3 virt) flags m in
      let pdp = next_table m.cr3 (index 3 virt) m1 in
      let m2 = ensure pdp (index 2 virt) flags m1 in
      let pd = next_table pdp (index 2 virt) m2 in
      if is_huge (m2.word (entry_at pd (index 1 virt)))
      then m2
      else let m3 = ensure pd (index 1 virt) flags m2 in
        let pt = next_table pd (index 1 virt) m3 in
        put_entry (entry_at pt (index 0 virt)) (bit_or phys flags) m3

unfoldable pub mmu_is_mapped : ℕ → Mmu → Bool
mmu_is_mapped virt m =
    if not (is_present (m.word (entry_at m.cr3 (index 3 virt))))
    then false
    else let pdp = next_table m.cr3 (index 3 virt) m in
      if not (is_present (m.word (entry_at pdp (index 2 virt))))
      then false
      else let pd = next_table pdp (index 2 virt) m in
        if is_huge (m.word (entry_at pd (index 1 virt)))
        then true
        else if not (is_present (m.word (entry_at pd (index 1 virt))))
        then false
        else is_present (m.word (entry_at (next_table pd (index 1 virt) m) (index 0 virt)))

-- The root that `mmu_unmap_page` reads, whatever `cr3` holds.
abbrev pub unmap_root : ℕ
unmap_root = 0x1000

-- The walk from a root, and the clearing of the last entry.
unfoldable pub unmap_from : ℕ → ℕ → Mmu → Mmu
unmap_from root virt m =
    if not (is_present (m.word (entry_at root (index 3 virt))))
    then m
    else let pdp = next_table root (index 3 virt) m in
      if not (is_present (m.word (entry_at pdp (index 2 virt))))
      then m
      else let pd = next_table pdp (index 2 virt) m in
        if not (is_present (m.word (entry_at pd (index 1 virt))))
        then m
        else put_entry (entry_at (next_table pd (index 1 virt) m) (index 0 virt)) 0 m

unfoldable pub mmu_unmap_page : ℕ → Mmu → Mmu
mmu_unmap_page virt m = unmap_from unmap_root virt m

-- `mmu_load_cr3` and the bit that `mmu_enable_paging` sets in the value of cr0.
unfoldable pub mmu_load_cr3 : ℕ → Mmu → Mmu
mmu_load_cr3 pml4 m = record m { cr3 = pml4 }

unfoldable pub mmu_enable_paging : ℕ → ℕ
mmu_enable_paging cr0 = bit_or cr0 0x80000000
