-- ===== src/Paging/Mapping.antt =====
-- `mmu_map_page` of src/impl/kernel/mmu.c, by the translations before and after it.
use nans_os.Base.{
  ℕ, suc, ◌+◌, ◌*◌, ◌^◌, ◌≤◌, ◌<◌, ◌≡◌, inl, inr, refl, ap, ◌∙◌, arith, true, false, ◌&&◌, not,
  some, List, [], ◌∷◌, bit_or, ltb, ◌==◌, if◌then◌else◌, Bool-cases,
}
use nans_os.Paging.{
  Mmu, is_present, is_huge, frame_of, index, entry_at, put_entry, mmu_map_page, mmu_is_mapped,
}
use nans_os.Paging.Entries.{IsFlags, present-or}
use nans_os.Paging.Tables.{Places, InOrder, above, index-lt, same_page, entry-ne}
use nans_os.Paging.Lookup.{
  lookup, lookup-step, lookup-entry, lookup-page, translate, in_huge, is_mapped-translate,
}
use nans_os.Paging.Ensure.{Ensured, ensured}
use nans_os.Paging.Walk.{
  state1, state2, state3, pdp_of, pd_of, pt_of, first_block, second_block, place1, place2,
  pdp-place, pd-place, huge_entry, huge_same,
}
use nans_os.Paging.Stores.{store-other, store-InOrder}

module _ (place : Places) (m : Mmu) (virt flags : ℕ) (o : InOrder place m) (f : IsFlags flags)
    (room : m.next_free_page + 3 * 4096 < 2 ^ 64) (plain : in_huge virt m ≡ false) where
  abbrev e1 :
      Ensured place
        (place1 place m virt flags o f room)
        m
        (state1 m virt flags)
        m.cr3
        2
        []
        (index 3 virt)
  e1 = (first_block place m virt flags o f room).1

  abbrev e2 :
      Ensured
        (place1 place m virt flags o f room)
        (place2 place m virt flags o f room)
        (state1 m virt flags)
        (state2 m virt flags)
        (pdp_of m virt flags)
        1
        (index 3 virt ∷ [])
        (index 2 virt)
  e2 = (second_block place m virt flags o f room).1

  third_block :
      (p : Places) × Ensured
        (place2 place m virt flags o f room)
        p
        (state2 m virt flags)
        (state3 m virt flags)
        (pd_of m virt flags)
        0
        (index 2 virt ∷ index 3 virt ∷ [])
        (index 1 virt)
  third_block =
      ensured (place2 place m virt flags o f room) (state2 m virt flags) flags (pd_of m virt flags)
        0 (index 2 virt ∷ index 3 virt ∷ []) (index 1 virt) e2.order f
        (pd-place place m virt flags o f room) (index-lt 1 virt) (omega (arith, e1.room, e2.room))
        (huge_entry place m virt flags o f room ∙ plain)

  abbrev place3 : Places
  place3 = third_block.0

  abbrev e3 :
      Ensured
        (place2 place m virt flags o f room)
        place3
        (state2 m virt flags)
        (state3 m virt flags)
        (pd_of m virt flags)
        0
        (index 2 virt ∷ index 3 virt ∷ [])
        (index 1 virt)
  e3 = third_block.1

  pt-place : place3 (pt_of m virt flags) ≡ some (0, above 0 virt)
  pt-place =
      e3.order.leads (pd_of m virt flags) 0 (index 2 virt ∷ index 3 virt ∷ []) (index 1 virt)
        (e3.extends (pd_of m virt flags) 1 (index 2 virt ∷ index 3 virt ∷ [])
          (pd-place place m virt flags o f room))
        (index-lt 1 virt) e3.present e3.small

  blocks-translate : (virt' : ℕ) → translate virt' (state3 m virt flags) ≡ translate virt' m
  blocks-translate virt' = e3.translates virt' ∙ e2.translates virt' ∙ e1.translates virt'

  abbrev mapped : ℕ → Mmu
  mapped phys =
      put_entry (entry_at (pt_of m virt flags) (index 0 virt)) (bit_or phys flags)
        (state3 m virt flags)

  mapped-keeps :
      (phys t l : ℕ) (p : List ℕ) (j : ℕ)
      → place3 t ≡ some (suc l, p)
      → j < 512
      → (mapped phys).word (entry_at t j) ≡ (state3 m virt flags).word (entry_at t j)
  unfolding put_entry
  mapped-keeps phys t l p j at h =
      let ne =
        entry-ne place3 (state3 m virt flags) t (suc l) p j (pt_of m virt flags) 0 (above 0 virt)
          (index 0 virt) e3.order at pt-place h (index-lt 0 virt)
          (λ q. absurd (omega (arith, q))) in
      ground arith

  -- The entries of the walk, as the blocks left them.
  root-kept :
      (phys : ℕ)
      → (mapped phys).word (entry_at m.cr3 (index 3 virt))
        ≡ (state1 m virt flags).word (entry_at m.cr3 (index 3 virt))
  root-kept phys =
      let at1 = e1.extends m.cr3 3 [] o.root in
      let at2 = e2.extends m.cr3 3 [] at1 in
      mapped-keeps phys m.cr3 2 [] (index 3 virt) (e3.extends m.cr3 3 [] at2) (index-lt 3 virt)
      ∙ e3.keeps m.cr3 3 [] (index 3 virt) at2 (index-lt 3 virt) (
          entry-ne (place2 place m virt flags o f room) (state2 m virt flags) m.cr3 3 []
            (index 3 virt) (pd_of m virt flags) 1 (index 2 virt ∷ index 3 virt ∷ []) (index 1 virt)
            e2.order at2 (pd-place place m virt flags o f room) (index-lt 3 virt) (index-lt 1 virt)
            (λ q. absurd (omega (arith, q))))
      ∙ e2.keeps m.cr3 3 [] (index 3 virt) at1 (index-lt 3 virt) (
          entry-ne (place1 place m virt flags o f room) (state1 m virt flags) m.cr3 3 []
            (index 3 virt) (pdp_of m virt flags) 2 (index 3 virt ∷ []) (index 2 virt) e1.order at1
            (pdp-place place m virt flags o f room) (index-lt 3 virt) (index-lt 2 virt)
            (λ q. absurd (omega (arith, q))))

  pdp-kept :
      (phys : ℕ)
      → (mapped phys).word (entry_at (pdp_of m virt flags) (index 2 virt))
        ≡ (state2 m virt flags).word (entry_at (pdp_of m virt flags) (index 2 virt))
  pdp-kept phys =
      let at1 = pdp-place place m virt flags o f room in
      let at2 = e2.extends (pdp_of m virt flags) 2 (index 3 virt ∷ []) at1 in
      mapped-keeps phys (pdp_of m virt flags) 1 (index 3 virt ∷ []) (index 2 virt)
        (e3.extends (pdp_of m virt flags) 2 (index 3 virt ∷ []) at2) (index-lt 2 virt)
      ∙ e3.keeps (pdp_of m virt flags) 2 (index 3 virt ∷ []) (index 2 virt) at2 (index-lt 2 virt) (
          entry-ne (place2 place m virt flags o f room) (state2 m virt flags) (pdp_of m virt flags)
            2 (index 3 virt ∷ []) (index 2 virt) (pd_of m virt flags) 1
            (index 2 virt ∷ index 3 virt ∷ []) (index 1 virt) e2.order at2
            (pd-place place m virt flags o f room) (index-lt 2 virt) (index-lt 1 virt)
            (λ q. absurd (omega (arith, q))))

  pd-kept :
      (phys : ℕ)
      → (mapped phys).word (entry_at (pd_of m virt flags) (index 1 virt))
        ≡ (state3 m virt flags).word (entry_at (pd_of m virt flags) (index 1 virt))
  pd-kept phys =
      mapped-keeps phys (pd_of m virt flags) 0 (index 2 virt ∷ index 3 virt ∷ []) (index 1 virt)
        (e3.extends (pd_of m virt flags) 1 (index 2 virt ∷ index 3 virt ∷ [])
          (pd-place place m virt flags o f room))
        (index-lt 1 virt)

  leaf-written :
      (phys : ℕ)
      → (mapped phys).word (entry_at (pt_of m virt flags) (index 0 virt)) ≡ bit_or phys flags
  unfolding put_entry
  leaf-written phys = ground arith

  mapped-root : (phys : ℕ) → (mapped phys).cr3 ≡ m.cr3
  unfolding put_entry
  mapped-root phys = e3.same_root ∙ e2.same_root ∙ e1.same_root

  translate-mapped : (phys : ℕ) → translate virt (mapped phys) ≡ some (bit_or phys flags)
  translate-mapped phys =
      ap (λ (t : ℕ). lookup 3 t virt (mapped phys)) (mapped-root phys)
      ∙ lookup-step 2 m.cr3 virt (pdp_of m virt flags) (mapped phys)
          (ap (λ (n : ℕ). is_present n) (root-kept phys) ∙ e1.present) refl
          (ap (λ (n : ℕ). frame_of n) (root-kept phys))
      ∙ lookup-step 1 (pdp_of m virt flags) virt (pd_of m virt flags) (mapped phys)
          (ap (λ (n : ℕ). is_present n) (pdp-kept phys) ∙ e2.present) refl
          (ap (λ (n : ℕ). frame_of n) (pdp-kept phys))
      ∙ lookup-step 0 (pd_of m virt flags) virt (pt_of m virt flags) (mapped phys)
          (ap (λ (n : ℕ). is_present n) (pd-kept phys) ∙ e3.present)
          (ap (λ (n : ℕ). 0 == 0 && is_huge n) (pd-kept phys) ∙ e3.small)
          (ap (λ (n : ℕ). frame_of n) (pd-kept phys))
      ∙ lookup-entry (pt_of m virt flags) virt (bit_or phys flags) (mapped phys) (leaf-written phys)
          (present-or phys flags f)

  map-writes : (phys : ℕ) → 0x400000 ≤ virt → mmu_map_page phys virt flags m ≡ mapped phys
  unfolding mmu_map_page
  map-writes phys high =
      let h : ltb virt 0x400000 ≡ false = ground arith in
      rw h (rw (huge_entry place m virt flags o f room ∙ plain) refl)

map-huge :
    (place : Places) (m : Mmu) (virt flags : ℕ)
    → InOrder place m
    → IsFlags flags
    → m.next_free_page + 3 * 4096 < 2 ^ 64
    → in_huge virt m ≡ true
    → (phys : ℕ) → 0x400000 ≤ virt
    → mmu_map_page phys virt flags m ≡ m
unfolding mmu_map_page
map-huge place m virt flags o f room huge phys high =
    let h : ltb virt 0x400000 ≡ false = ground arith in
    rw h (
      rw (huge_entry place m virt flags o f room ∙ huge)
        (huge_same place m virt flags o f room huge))

-- With the page tables in order, three pages left and flags that mark a page as present and not
-- huge, `mmu_map_page` of an address from 4 MB on changes the translation of the address's page
-- only: it becomes the physical address with the flags, and every other page keeps its translation.
-- In a huge page nothing is translated otherwise. The address is mapped after it, and the tables are
-- in order again.
pub map_page-translates :
    (place : Places) (m : Mmu) (phys virt flags virt' : ℕ)
    → InOrder place m
    → IsFlags flags
    → m.next_free_page + 3 * 4096 < 2 ^ 64
    → 0x400000 ≤ virt
    → (translate virt' (mmu_map_page phys virt flags m) ≡ (
        if not (in_huge virt m) && same_page virt virt'
        then some (bit_or phys flags)
        else translate virt' m))
      × (mmu_is_mapped virt (mmu_map_page phys virt flags m) ≡ true)
      × ((place' : Places) × InOrder place' (mmu_map_page phys virt flags m))
map_page-translates place m phys virt flags virt' o f room high =
    elim (Bool-cases (in_huge virt m)) [
      | inl huge ↦
          let same : mmu_map_page phys virt flags m ≡ m =
            map-huge place m virt flags o f room huge phys high in
          rw (same, huge) (refl, is_mapped-translate virt m ∙ rw huge refl, (place, o))
      | inr plain ↦
          let m' : Mmu = mapped place m virt flags o f room plain phys in
          let there = translate-mapped place m virt flags o f room plain phys in
          let all : translate virt' m'
              ≡ (if same_page virt virt' then some (bit_or phys flags) else translate virt' m) =
            elim (Bool-cases (same_page virt virt')) [
              | inl e ↦
                  rw e (lookup-page 3 m'.cr3 virt' virt m' (omega arith) (ground arith) ∙ there)
              | inr e ↦ rw e (
                  store-other (place3 place m virt flags o f room plain) (state3 m virt flags)
                    (pt_of m virt flags) virt virt' (bit_or phys flags)
                    (e3 place m virt flags o f room plain).order
                    (pt-place place m virt flags o f room plain) e
                  ∙ blocks-translate place m virt flags o f room plain virt')
            ] in
          rw (map-writes place m virt flags o f room plain phys high, plain)
            (
              all,
              is_mapped-translate virt m' ∙ rw there (ground arith),
              (
                place3 place m virt flags o f room plain,
                store-InOrder (place3 place m virt flags o f room plain) (state3 m virt flags)
                    (pt_of m virt flags) (index 0 virt) (bit_or phys flags) (above 0 virt)
                    (e3 place m virt flags o f room plain).order
                    (pt-place place m virt flags o f room plain) (index-lt 0 virt),
              ),
            )
    ]
