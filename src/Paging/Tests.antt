-- ===== src/Paging/Tests.antt =====
-- Page tables on which the theorems are run: an empty root table at 0x1000.
use nans_os.Base.{
  ◌≡◌, refl, arith, true, false, not, ◌&&◌, none, some, [], ◌∷◌, bit_or, ◌==◌, if◌then◌else◌,
}
use nans_os.Paging.{Mmu, mmu_map_page, mmu_unmap_page, mmu_is_mapped}
use nans_os.Paging.Entries.{IsFlags}
use nans_os.Paging.Tables.{Places, InOrder}
use nans_os.Paging.Lookup.{translate, in_huge}
use nans_os.Paging.Mapping.{map_page-translates}
use nans_os.Paging.Unmapping.{unmap_page-translates}

abbrev blank : Mmu
blank = record { cr3 = 0x1000; next_free_page = 0x400000; word = λ a. 0 }

abbrev place : Places
place = λ t. if t == 0x1000 then some (3, []) else none

blank-InOrder : InOrder place blank
blank-InOrder = record {
  root = refl;
  leads = λ t l p i at h here small. absurd (ground arith);
  aligned = λ t l p at. ground arith;
  old = λ t l p at. ground arith;
  next = refl;
}

writable-IsFlags : IsFlags 3
writable-IsFlags = record { below = omega arith; present = refl; small = refl }

blank_plain : in_huge 0x812345 blank ≡ false
unfolding in_huge
blank_plain = refl

map_page-translates_example :
    (translate 0x812000 (mmu_map_page 0x700000 0x812345 3 blank) ≡ (
      if not (in_huge 0x812345 blank) && true
      then some (bit_or 0x700000 3)
      else translate 0x812000 blank))
    × (mmu_is_mapped 0x812345 (mmu_map_page 0x700000 0x812345 3 blank) ≡ true)
    × ((place' : Places) × InOrder place' (mmu_map_page 0x700000 0x812345 3 blank))
map_page-translates_example =
    map_page-translates place blank 0x700000 0x812345 3 0x812000 blank-InOrder writable-IsFlags
      (omega arith) (omega arith)

-- The address 0x812345 is mapped to the page 0x700000, by tables at 0x2000, 0x3000 and 0x4000.
abbrev one_page : Mmu
one_page = record {
  cr3 = 0x1000;
  next_free_page = 0x400000;
  word = λ a.
      if a == 0x1000
      then 0x2003
      else if a == 0x2000
      then 0x3003
      else if a == 0x3020
      then 0x4003
      else if a == 0x4090
      then 0x700003
      else 0;
}

abbrev place_of : Places
place_of = λ t.
    if t == 0x1000
    then some (3, [])
    else if t == 0x2000
    then some (2, 0 ∷ [])
    else if t == 0x3000
    then some (1, 0 ∷ 0 ∷ [])
    else if t == 0x4000
    then some (0, 4 ∷ 0 ∷ 0 ∷ [])
    else none

one_page-InOrder : InOrder place_of one_page
one_page-InOrder = record {
  root = refl;
  leads = λ t l p i at h here small. ground arith;
  aligned = λ t l p at. ground arith;
  old = λ t l p at. ground arith;
  next = refl;
}

one_page-plain : in_huge 0x812345 one_page ≡ false
unfolding in_huge
one_page-plain = refl

unmap_page-translates_example :
    (translate 0x812000 (mmu_unmap_page 0x812345 one_page) ≡ none)
    × (mmu_is_mapped 0x812345 (mmu_unmap_page 0x812345 one_page) ≡ false)
    × InOrder place_of (mmu_unmap_page 0x812345 one_page)
unmap_page-translates_example =
    unmap_page-translates place_of one_page 0x812345 0x812000 one_page-InOrder refl one_page-plain
