-- ===== src/Paging/Unmapping.antt =====
-- `mmu_unmap_page` of src/impl/kernel/mmu.c, by the translations before and after it.
use nans_os.Base.{
  ℕ, suc, ◌<◌, ◌≡◌, inl, inr, refl, ◌∙◌, arith, true, false, none, some, List, [], ◌∷◌,
  if◌then◌else◌, Bool-cases,
}
use nans_os.Paging.{
  Mmu, is_present, is_huge, index, entry_at, next_table, put_entry, unmap_root, unmap_from,
  mmu_unmap_page, mmu_is_mapped,
}
use nans_os.Paging.Tables.{Places, InOrder, above, index-lt, entry-ne, same_page}
use nans_os.Paging.Lookup.{
  lookup, lookup-absent, lookup-step, lookup-page, translate, in_huge, is_mapped-translate,
}
use nans_os.Paging.Stores.{store-other, store-InOrder}

-- What a state after unmapping has to be.
record Unmapped (place : Places) (m m' : Mmu) (virt : ℕ) : Type 0 where
  order : InOrder place m'
  gone : translate virt m' ≡ none
  others : (virt' : ℕ) → same_page virt virt' ≡ false → translate virt' m' ≡ translate virt' m
  small : in_huge virt m' ≡ false

module _ (place : Places) (m : Mmu) (virt : ℕ) (o : InOrder place m)
    (plain : in_huge virt m ≡ false) where
  abbrev pdp : ℕ
  pdp = next_table m.cr3 (index 3 virt) m

  abbrev pd : ℕ
  pd = next_table pdp (index 2 virt) m

  abbrev pt : ℕ
  pt = next_table pd (index 1 virt) m

  -- Where a table is missing, nothing is to be done.
  nothing : translate virt m ≡ none → Unmapped place m m virt
  nothing none_there = record {
    order = o;
    gone = none_there;
    others = λ virt' p. refl;
    small = plain;
  }

  module _ (at3 : is_present (m.word (entry_at m.cr3 (index 3 virt))) ≡ true) where
    to_pdp : translate virt m ≡ lookup 2 pdp virt m
    to_pdp = lookup-step 2 m.cr3 virt pdp m at3 refl refl

    pdp-place : place pdp ≡ some (2, index 3 virt ∷ [])
    pdp-place = o.leads m.cr3 2 [] (index 3 virt) o.root (index-lt 3 virt) at3 refl

    module _ (at2 : is_present (m.word (entry_at pdp (index 2 virt))) ≡ true) where
      to_pd : translate virt m ≡ lookup 1 pd virt m
      to_pd = to_pdp ∙ lookup-step 1 pdp virt pd m at2 refl refl

      pd-place : place pd ≡ some (1, index 2 virt ∷ index 3 virt ∷ [])
      pd-place =
          o.leads pdp 1 (index 3 virt ∷ []) (index 2 virt) pdp-place (index-lt 2 virt) at2 refl

      pd-small : is_huge (m.word (entry_at pd (index 1 virt))) ≡ false
      unfolding in_huge
      pd-small = ground arith

      module _ (at1 : is_present (m.word (entry_at pd (index 1 virt))) ≡ true) where
        pt-place : place pt ≡ some (0, above 0 virt)
        pt-place =
            o.leads pd 0 (index 2 virt ∷ index 3 virt ∷ []) (index 1 virt) pd-place
              (index-lt 1 virt) at1 pd-small

        abbrev cleared : Mmu
        cleared = put_entry (entry_at pt (index 0 virt)) 0 m

        cleared-keeps :
            (t l : ℕ) (p : List ℕ) (j : ℕ)
            → place t ≡ some (suc l, p)
            → j < 512
            → cleared.word (entry_at t j) ≡ m.word (entry_at t j)
        unfolding put_entry
        cleared-keeps t l p j at h =
            let ne =
              entry-ne place m t (suc l) p j pt 0 (above 0 virt) (index 0 virt) o at pt-place h
                (index-lt 0 virt) (λ q. absurd (omega (arith, q))) in
            ground arith

        leaf-cleared : cleared.word (entry_at pt (index 0 virt)) ≡ 0
        unfolding put_entry
        leaf-cleared = ground arith

        cleared-Unmapped : Unmapped place m cleared virt
        unfolding put_entry in_huge
        cleared-Unmapped =
            let w3 = cleared-keeps m.cr3 2 [] (index 3 virt) o.root (index-lt 3 virt) in
            let w2 =
              cleared-keeps pdp 1 (index 3 virt ∷ []) (index 2 virt) pdp-place (index-lt 2 virt) in
            let w1 =
              cleared-keeps pd 0 (index 2 virt ∷ index 3 virt ∷ []) (index 1 virt) pd-place
                (index-lt 1 virt) in
            record {
              order =
                  store-InOrder place m pt (index 0 virt) 0 (above 0 virt) o pt-place
                    (index-lt 0 virt);
              gone =
                  lookup-step 2 m.cr3 virt pdp cleared (rw w3 at3) refl (rw w3 refl)
                  ∙ lookup-step 1 pdp virt pd cleared (rw w2 at2) refl (rw w2 refl)
                  ∙ lookup-step 0 pd virt pt cleared (rw w1 at1) (rw w1 pd-small) (rw w1 refl)
                  ∙ lookup-absent 0 pt virt cleared (rw leaf-cleared refl);
              others = λ virt' p. store-other place m pt virt virt' 0 o pt-place p;
              small = rw w3 (rw w2 (rw w1 plain));
            }

  unmap_from-Unmapped : Unmapped place m (unmap_from m.cr3 virt m) virt
  unfolding unmap_from
  unmap_from-Unmapped = elim (Bool-cases (is_present (m.word (entry_at m.cr3 (index 3 virt))))) [
    | inr a ↦ rw a (nothing (lookup-absent 3 m.cr3 virt m a))
    | inl a ↦ rw a (elim (Bool-cases (is_present (m.word (entry_at pdp (index 2 virt))))) [
      | inr b ↦ rw b (nothing (to_pdp a ∙ lookup-absent 2 pdp virt m b))
      | inl b ↦ rw b (elim (Bool-cases (is_present (m.word (entry_at pd (index 1 virt))))) [
        | inr c ↦ rw c (nothing (to_pd a b ∙ lookup-absent 1 pd virt m c))
        | inl c ↦ rw c (cleared-Unmapped a b c)
      ])
    ])
  ]

-- With the page tables in order under the root at 0x1000, `mmu_unmap_page` of an address outside the
-- huge pages takes the translation from the page of the address, which is not mapped after it; every
-- other page keeps its translation, and the tables stay in order.
pub unmap_page-translates :
    (place : Places) (m : Mmu) (virt virt' : ℕ)
    → InOrder place m
    → m.cr3 ≡ unmap_root
    → in_huge virt m ≡ false
    → (translate virt' (mmu_unmap_page virt m)
        ≡ (if same_page virt virt' then none else translate virt' m))
      × (mmu_is_mapped virt (mmu_unmap_page virt m) ≡ false)
      × InOrder place (mmu_unmap_page virt m)
unfolding mmu_unmap_page
unmap_page-translates place m virt virt' o r plain =
    let m' : Mmu = mmu_unmap_page virt m in
    let u : Unmapped place m m' virt = rw (← r) (unmap_from-Unmapped place m virt o plain) in
    (
      elim (Bool-cases (same_page virt virt')) [
        | inl e ↦ rw e (lookup-page 3 m'.cr3 virt' virt m' (omega arith) (ground arith) ∙ u.gone)
        | inr e ↦ rw e (u.others virt' e)
      ],
      is_mapped-translate virt m' ∙ rw (u.small, u.gone) refl,
      u.order,
    )
