-- ===== src/Paging/Tables.antt =====
-- Page tables in order: where each table lies in the tree.
use nans_os.Base.{
  ℕ, zero, suc, ◌/◌, ◌%◌, ◌^◌, ◌<◌, ◌≡◌, ◌≢◌, refl, arith, Bool, true, false, ◌&&◌, Option, some,
  List, [], ◌∷◌, ◌==◌,
}
use nans_os.Paging.{Mmu, is_present, is_huge, frame_of, index, entry_at}

-- The indices that lead to the table of an address at a level, the last one first.
abbrev pub above : ℕ → ℕ → List ℕ
above zero virt = index 1 virt ∷ index 2 virt ∷ index 3 virt ∷ []
above (suc zero) virt = index 2 virt ∷ index 3 virt ∷ []
above (suc (suc zero)) virt = index 3 virt ∷ []
above (suc (suc (suc _))) virt = []

-- The place of a page: the level and the path of the table in it, if it holds one.
abbrev pub Places : Type 0
Places = ℕ → Option (ℕ × List ℕ)

-- Every table has one place, an entry that is present leads to the table one level below (a huge
-- page excepted), and all tables lie below the next free page, which is aligned.
pub record InOrder (place : Places) (m : Mmu) : Type 0 where
  pub root : place m.cr3 ≡ some (3, [])
  pub leads :
      (table level : ℕ) (path : List ℕ) (i : ℕ)
      → place table ≡ some (suc level, path)
      → i < 512
      → is_present (m.word (entry_at table i)) ≡ true
      → (level == 0 && is_huge (m.word (entry_at table i))) ≡ false
      → place (frame_of (m.word (entry_at table i))) ≡ some (level, i ∷ path)
  pub aligned :
      (table level : ℕ) (path : List ℕ) → place table ≡ some (level, path) → table % 4096 ≡ 0
  pub old :
      (table level : ℕ) (path : List ℕ)
      → place table ≡ some (level, path)
      → table < m.next_free_page
  pub next : m.next_free_page % 4096 ≡ 0

pub index-lt : (level virt : ℕ) → index level virt < 512
index-lt zero virt = omega arith
index-lt (suc zero) virt = omega arith
index-lt (suc (suc zero)) virt = omega arith
index-lt (suc (suc (suc level))) virt = omega arith

pub above-index :
    (level virt : ℕ)
    → level < 3
    → above level virt ≡ index (suc level) virt ∷ above (suc level) virt
above-index zero virt h = refl
above-index (suc zero) virt h = refl
above-index (suc (suc zero)) virt h = refl
above-index (suc (suc (suc level))) virt h = absurd (omega arith)

pub place-level :
    {level level' : ℕ} {path path' : List ℕ} {o : Option (ℕ × List ℕ)}
    → o ≡ some (level, path)
    → o ≡ some (level', path')
    → (level ≡ level') × (path ≡ path')
place-level h h' = (cc, cc)

-- Two entries of tables at one address are one entry.
pub same_entry :
    (table i table' i' : ℕ)
    → table % 4096 ≡ 0
    → table' % 4096 ≡ 0
    → i < 512
    → i' < 512
    → entry_at table i ≡ entry_at table' i'
    → (table ≡ table') × (i ≡ i')
same_entry table i table' i' a a' h h' e = (omega arith, omega arith)

-- The entries of a table lie in its page.
pub entry-in_page :
    (table i next : ℕ)
    → table % 4096 ≡ 0
    → next % 4096 ≡ 0
    → table < next
    → i < 512
    → entry_at table i < next
entry-in_page table i next a a' h hi = omega arith

abbrev pub same_page : ℕ → ℕ → Bool
same_page virt virt' = virt / 4096 % 2 ^ 36 == virt' / 4096 % 2 ^ 36

-- Addresses of one page have the same indices at all levels, and no others have.
pub page-indices :
    (virt virt' : ℕ)
    → same_page virt virt' ≡ (
        index 0 virt == index 0 virt'
        && (index 1 virt == index 1 virt'
            && (index 2 virt == index 2 virt' && index 3 virt == index 3 virt')))
page-indices virt virt' = ground arith

pub same_index :
    (level virt virt' : ℕ)
    → level < 4
    → same_page virt virt' ≡ true
    → index level virt ≡ index level virt'
same_index zero virt virt' h p = ground (arith, page-indices virt virt')
same_index (suc zero) virt virt' h p = ground (arith, page-indices virt virt')
same_index (suc (suc zero)) virt virt' h p = ground (arith, page-indices virt virt')
same_index (suc (suc (suc zero))) virt virt' h p = ground (arith, page-indices virt virt')
same_index (suc (suc (suc (suc level)))) virt virt' h p = absurd (omega arith)

-- Entries of tables of different levels have different addresses.
pub entry-ne :
    (place : Places) (m : Mmu) (t l : ℕ) (p : List ℕ) (j t' l' : ℕ) (p' : List ℕ) (j' : ℕ)
    → InOrder place m
    → place t ≡ some (l, p)
    → place t' ≡ some (l', p')
    → j < 512
    → j' < 512
    → l ≢ l'
    → entry_at t j ≢ entry_at t' j'
entry-ne place m t l p j t' l' p' j' o at at' h h' ne e =
    let te = (same_entry t j t' j' (o.aligned t l p at) (o.aligned t' l' p' at') h h' e).0 in
    let q : place t' ≡ some (l, p) = rw (← te) at in ne (place-level q at').0
