-- ===== src/Paging/Stores.antt =====
-- A write to the last entry of a walk in the page tables of src/impl/kernel/mmu.c.
use nans_os.Base.{
  ℕ, zero, suc, ◌<◌, ◌≡◌, ◌≢◌, inl, inr, refl, sym, arith, false, some, List, ◌==◌, Bool-cases,
  ==_iff,
}
use nans_os.Paging.{Mmu, index, entry_at, put_entry}
use nans_os.Paging.Tables.{
  Places, InOrder, above, index-lt, same_entry, same_page, page-indices, place-level,
}
use nans_os.Paging.Lookup.{lookup-agree, translate, Agree}

-- The table of level 0 on the path of an address, and the indices of another address there.
pub other_page :
    (virt virt' l : ℕ)
    → same_page virt virt' ≡ false
    → 0 ≡ l
    → above 0 virt ≡ above l virt'
    → index 0 virt ≢ index l virt'
other_page virt virt' zero p e q i = ground (arith, page-indices virt virt')
other_page virt virt' (suc l) p e q i = absurd (omega arith)

-- A write to the last entry of an address leaves the translations of the other pages.
pub store-other :
    (place : Places) (m : Mmu) (pt virt virt' entry : ℕ)
    → InOrder place m
    → place pt ≡ some (0, above 0 virt)
    → same_page virt virt' ≡ false
    → translate virt' (put_entry (entry_at pt (index 0 virt)) entry m) ≡ translate virt' m
unfolding put_entry
store-other place m pt virt virt' entry o at p =
    let m' : Mmu = put_entry (entry_at pt (index 0 virt)) entry m in
    let agree = λ (l t : ℕ) (here : place t ≡ some (l, above l virt')).
      elim (Bool-cases (entry_at t (index l virt') == entry_at pt (index 0 virt)))
        as (λ b. Agree virt' m m' l t) [
          | inl e ↦
              let (te, ie) =
                same_entry t (index l virt') pt (index 0 virt) (o.aligned t l (above l virt') here)
                  (o.aligned pt 0 (above 0 virt) at) (index-lt l virt') (index-lt 0 virt)
                  ((==_iff _ _).0 e) in
              let q : place pt ≡ some (l, above l virt') = rw (← te) here in
              let (le, pe) = place-level at q in absurd (other_page virt virt' l p le pe (sym ie))
          | inr ne ↦ inl (rw ne refl)
        ] in
    lookup-agree place m m' virt' o agree 3 m.cr3 (omega arith) o.root

-- Such a write leaves the tables in order.
pub store-InOrder :
    (place : Places) (m : Mmu) (pt i entry : ℕ) (path : List ℕ)
    → InOrder place m
    → place pt ≡ some (0, path)
    → i < 512
    → InOrder place (put_entry (entry_at pt i) entry m)
unfolding put_entry
store-InOrder place m pt i entry path o at hi =
    let same = λ (t l : ℕ) (p : List ℕ) (j : ℕ) (here : place t ≡ some (suc l, p)) (hj : j < 512).
      elim (Bool-cases (entry_at t j == entry_at pt i))
        as (λ b. (put_entry (entry_at pt i) entry m).word (entry_at t j) ≡ m.word (entry_at t j)) [
          | inl e ↦
              let (te, ie) =
                same_entry t j pt i (o.aligned t (suc l) p here) (o.aligned pt 0 path at) hj hi
                  ((==_iff _ _).0 e) in
              let q : place pt ≡ some (suc l, p) = rw (← te) here in
              let (le, pe) = place-level at q in absurd (omega (arith, le))
          | inr ne ↦ rw ne refl
        ] in
    record {
      root = o.root;
      leads = λ t l p j here hj present small.
          let w = same t l p j here hj in
          rw w (o.leads t l p j here hj (rw (← w) present) (rw (← w) small));
      aligned = o.aligned;
      old = o.old;
      next = o.next;
    }
