-- ===== src/Paging/Lookup.antt =====
-- The entry of a page, as an independent walk of the tables: what mmu.c is to keep.
use nans_os.Base.{
  ℕ, zero, suc, ◌<◌, ◌≡◌, ◌⊎◌, inl, inr, refl, ap, sym, ◌∙◌, arith, Bool, true, false, ◌&&◌, ◌||◌,
  Option, none, some, is_some, List, ◌==◌, if◌then◌else◌, Bool-cases,
}
use nans_os.Paging.{Mmu, is_present, is_huge, frame_of, index, entry_at, next_table, mmu_is_mapped}
use nans_os.Paging.Tables.{Places, InOrder, above, above-index, index-lt, same_page, same_index}

-- From a table at a level: the entry of the page, if it is present; none for a huge page.
pub lookup : ℕ → ℕ → ℕ → Mmu → Option ℕ
lookup zero table virt m =
    let entry = m.word (entry_at table (index zero virt)) in
    if is_present entry then some entry else none
lookup (suc level) table virt m =
    let entry = m.word (entry_at table (index (suc level) virt)) in
    let below = lookup level (frame_of entry) virt m in
    if level == 0 && is_huge entry then none else if is_present entry then below else none

-- The entry of the page of an address, from the root.
abbrev pub translate : ℕ → Mmu → Option ℕ
translate virt m = lookup 3 m.cr3 virt m

-- Whether an address lies in a huge page.
unfoldable pub in_huge : ℕ → Mmu → Bool
in_huge virt m =
    let pdp = next_table m.cr3 (index 3 virt) m in
    let pd = next_table pdp (index 2 virt) m in
    is_present (m.word (entry_at m.cr3 (index 3 virt)))
    && (is_present (m.word (entry_at pdp (index 2 virt)))
        && is_huge (m.word (entry_at pd (index 1 virt))))

pub is_mapped-translate :
    (virt : ℕ) (m : Mmu) → mmu_is_mapped virt m ≡ (in_huge virt m || is_some (translate virt m))
unfolding mmu_is_mapped in_huge lookup
is_mapped-translate virt m = ground arith

pub lookup-empty :
    (level table virt : ℕ) (m : Mmu)
    → m.word (entry_at table (index level virt)) ≡ 0
    → lookup level table virt m ≡ none
unfolding lookup
lookup-empty zero table virt m h = rw h refl
lookup-empty (suc level) table virt m h = rw h (ground arith)

pub lookup-absent :
    (level table virt : ℕ) (m : Mmu)
    → is_present (m.word (entry_at table (index level virt))) ≡ false
    → lookup level table virt m ≡ none
unfolding lookup
lookup-absent zero table virt m h = ground arith
lookup-absent (suc level) table virt m h = ground arith

pub lookup-step :
    (level table virt below : ℕ) (m : Mmu)
    → is_present (m.word (entry_at table (index (suc level) virt))) ≡ true
    → (level == 0 && is_huge (m.word (entry_at table (index (suc level) virt)))) ≡ false
    → frame_of (m.word (entry_at table (index (suc level) virt))) ≡ below
    → lookup (suc level) table virt m ≡ lookup level below virt m
unfolding lookup
lookup-step level table virt below m here small fr = rw (small, here) (rw fr refl)

pub lookup-entry :
    (table virt entry : ℕ) (m : Mmu)
    → m.word (entry_at table (index 0 virt)) ≡ entry
    → is_present entry ≡ true
    → lookup 0 table virt m ≡ some entry
unfolding lookup
lookup-entry table virt entry m e here = rw e (rw here refl)

-- A walk that comes through an entry to a table of zeros finds nothing.
pub lookup-into_empty :
    (l level t at below virt : ℕ) (m : Mmu)
    → l ≡ suc level
    → entry_at t (index l virt) ≡ at
    → is_present (m.word at) ≡ true
    → (level == 0 && is_huge (m.word at)) ≡ false
    → frame_of (m.word at) ≡ below
    → m.word (entry_at below (index level virt)) ≡ 0
    → lookup l t virt m ≡ none
lookup-into_empty zero level t at below virt m le e here small fr z = absurd (omega arith)
lookup-into_empty (suc l) level t at below virt m le e here small fr z =
    let q : level ≡ l = omega arith in
    lookup-step l t virt below m (rw e here) (rw e (rw (← q) small)) (rw e fr)
    ∙ lookup-empty l below virt m (rw (← q) z)

-- A lookup reads nothing of an address but its page.
pub lookup-page :
    (level table virt virt' : ℕ) (m : Mmu)
    → level < 4
    → same_page virt virt' ≡ true
    → lookup level table virt m ≡ lookup level table virt' m
unfolding lookup
lookup-page zero table virt virt' m h p = rw (same_index 0 virt virt' h p) refl
lookup-page (suc level) table virt virt' m h p =
    let entry : ℕ = m.word (entry_at table (index (suc level) virt')) in
    rw (same_index (suc level) virt virt' h p)
      (rw (lookup-page level (frame_of entry) virt virt' m (omega arith) p) refl)

-- Two memories agree on an address below a table: their entries are the same, or both lookups
-- from it find nothing.
abbrev pub Agree : ℕ → Mmu → Mmu → ℕ → ℕ → Type 0
Agree virt m m' level table =
    (m'.word (entry_at table (index level virt)) ≡ m.word (entry_at table (index level virt)))
    ⊎ ((lookup level table virt m' ≡ none) × (lookup level table virt m ≡ none))

module _ (place : Places) (m m' : Mmu) (virt : ℕ) (o : InOrder place m)
    (agree : (level table : ℕ)
      → place table ≡ some (level, above level virt)
      → Agree virt m m' level table) where
  pub lookup-agree :
      (level table : ℕ)
      → level < 4
      → place table ≡ some (level, above level virt)
      → lookup level table virt m' ≡ lookup level table virt m
  unfolding lookup
  lookup-agree zero table h at = elim (agree zero table at) [
    | inl same ↦ rw same refl
    | inr (a, b) ↦ a ∙ sym b
  ]
  lookup-agree (suc level) table h at = elim (agree (suc level) table at) [
    | inr (a, b) ↦ a ∙ sym b
    | inl same ↦
        let entry : ℕ = m.word (entry_at table (index (suc level) virt)) in
        elim (Bool-cases (level == 0 && is_huge entry)) [
          | inl huge ↦ rw same (rw huge refl)
          | inr small ↦ elim (Bool-cases (is_present entry)) [
            | inr absent ↦ rw same (rw small (rw absent refl))
            | inl here ↦
                let ih = lookup-agree level (frame_of entry) (omega arith) (
                  o.leads table level (above (suc level) virt) (index (suc level) virt) at
                    (index-lt (suc level) virt) here small
                  ∙ ap (λ (p : List ℕ). some (level, p))
                      (sym (above-index level virt (omega arith)))) in
                rw same (rw small (rw here ih))
          ]
        ]
  ]
