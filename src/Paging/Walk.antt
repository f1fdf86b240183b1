-- ===== src/Paging/Walk.antt =====
-- The walk of `mmu_map_page` of src/impl/kernel/mmu.c down to the page directory.
use nans_os.Base.{
  ℕ, ◌+◌, ◌*◌, ◌^◌, ◌<◌, ◌≡◌, inl, inr, refl, ap, sym, ◌∙◌, arith, Bool, true, false, ◌&&◌, some,
  [], ◌∷◌, Bool-cases,
}
use nans_os.Paging.{Mmu, is_present, is_huge, index, entry_at, next_table, ensure}
use nans_os.Paging.Entries.{IsFlags}
use nans_os.Paging.Tables.{Places, InOrder, index-lt}
use nans_os.Paging.Lookup.{in_huge}
use nans_os.Paging.Ensure.{Ensured, ensured}

and_both : (a b : Bool) → (a && b) ≡ true → (a ≡ true) × (b ≡ true)
and_both true b h = (refl, h)
and_both false b h = absurd (ground arith)

and_first : (a b c : Bool) → (a && (b && c)) ≡ true → (a ≡ true) × (b ≡ true)
and_first true true c h = (refl, refl)
and_first true false c h = absurd (ground arith)
and_first false b c h = absurd (ground arith)

and_rest : (a b : Bool) → a ≡ true → (a && b) ≡ false → b ≡ false
and_rest true b h missing = missing
and_rest false b h missing = absurd (ground arith)

and_missing : (a b c : Bool) → (a && b) ≡ false → (a && (b && c)) ≡ false
and_missing true true c h = absurd (ground arith)
and_missing true false c h = refl
and_missing false b c h = refl

-- The steps of the walk in `mmu_map_page`: the tables that it comes through, and the states behind
-- the three blocks.
module _ (m : Mmu) (virt flags : ℕ) where
  abbrev pub state1 : Mmu
  state1 = ensure m.cr3 (index 3 virt) flags m

  abbrev pub pdp_of : ℕ
  pdp_of = next_table m.cr3 (index 3 virt) state1

  abbrev pub state2 : Mmu
  state2 = ensure pdp_of (index 2 virt) flags state1

  abbrev pub pd_of : ℕ
  pd_of = next_table pdp_of (index 2 virt) state2

  abbrev pub state3 : Mmu
  state3 = ensure pd_of (index 1 virt) flags state2

  abbrev pub pt_of : ℕ
  pt_of = next_table pd_of (index 1 virt) state3

module _ (place : Places) (m : Mmu) (virt flags : ℕ) (o : InOrder place m) (f : IsFlags flags)
    (room : m.next_free_page + 3 * 4096 < 2 ^ 64) where
  pub first_block : (p : Places) × Ensured place p m (state1 m virt flags) m.cr3 2 [] (index 3 virt)
  first_block =
      ensured place m flags m.cr3 2 [] (index 3 virt) o f o.root (index-lt 3 virt) (omega arith)
        refl

  abbrev pub place1 : Places
  place1 = first_block.0

  pub pdp-place : place1 (pdp_of m virt flags) ≡ some (2, index 3 virt ∷ [])
  pdp-place =
      let e = first_block.1 in
      e.order.leads m.cr3 2 [] (index 3 virt) (e.extends m.cr3 3 [] o.root) (index-lt 3 virt)
        e.present e.small

  pub second_block :
      (p : Places) × Ensured place1 p
        (state1 m virt flags)
        (state2 m virt flags)
        (pdp_of m virt flags)
        1
        (index 3 virt ∷ [])
        (index 2 virt)
  second_block =
      let e = first_block.1 in
      ensured place1 (state1 m virt flags) flags (pdp_of m virt flags) 1 (index 3 virt ∷ [])
        (index 2 virt) e.order f pdp-place (index-lt 2 virt) (omega (arith, e.room)) refl

  abbrev pub place2 : Places
  place2 = second_block.0

  pub pd-place : place2 (pd_of m virt flags) ≡ some (1, index 2 virt ∷ index 3 virt ∷ [])
  pd-place =
      let e = second_block.1 in
      e.order.leads (pdp_of m virt flags) 1 (index 3 virt ∷ []) (index 2 virt)
        (e.extends (pdp_of m virt flags) 2 (index 3 virt ∷ []) pdp-place) (index-lt 2 virt)
        e.present e.small

  abbrev pdp_entry : Mmu → ℕ
  pdp_entry x = m.word (entry_at (next_table m.cr3 (index 3 virt) x) (index 2 virt))

  -- Where the tables of the walk down to the page directory are there, nothing changes.
  both_present :
      is_present (m.word (entry_at m.cr3 (index 3 virt))) ≡ true
      → is_present (pdp_entry m) ≡ true
      → (state1 m virt flags ≡ m) × (state2 m virt flags ≡ m)
  both_present a b =
      let s1 : state1 m virt flags ≡ m = first_block.1.same a in
      let b1 : is_present
            ((state1 m virt flags).word (entry_at (pdp_of m virt flags) (index 2 virt)))
          ≡ true =
        rw s1 b in
      (s1, second_block.1.same b1 ∙ s1)

  -- Where one of them is missing, the entry of the page directory is empty.
  one_missing :
      (is_present (m.word (entry_at m.cr3 (index 3 virt))) && is_present (pdp_entry m)) ≡ false
      → (state2 m virt flags).word (entry_at (pd_of m virt flags) (index 1 virt)) ≡ 0
  one_missing missing = elim (Bool-cases (is_present (m.word (entry_at m.cr3 (index 3 virt))))) [
    | inl a ↦
        let s1 : state1 m virt flags ≡ m = first_block.1.same a in
        let b : is_present (pdp_entry m) ≡ false = and_rest _ _ a missing in
        let b1 : is_present
              ((state1 m virt flags).word (entry_at (pdp_of m virt flags) (index 2 virt)))
            ≡ false =
          rw s1 b in
        second_block.1.zeros b1 (index 1 virt) (index-lt 1 virt)
    | inr a ↦
        let z = first_block.1.zeros a (index 2 virt) (index-lt 2 virt) in
        second_block.1.zeros (rw z refl) (index 1 virt) (index-lt 1 virt)
  ]

  -- What the check for a huge page reads is what the address had before.
  pub huge_entry :
      is_huge ((state2 m virt flags).word (entry_at (pd_of m virt flags) (index 1 virt)))
      ≡ in_huge virt m
  unfolding in_huge
  huge_entry =
      elim (Bool-cases
        (is_present (m.word (entry_at m.cr3 (index 3 virt))) && is_present (pdp_entry m))) [
          | inl both ↦
              let (a, b) = and_both _ _ both in
              let (s1, s2) = both_present a b in
              let read = λ (x y : Mmu). is_huge (
                y.word (
                  entry_at (next_table (next_table m.cr3 (index 3 virt) x) (index 2 virt) y)
                    (index 1 virt))) in
              ap (λ (x : Mmu). read x (state2 m virt flags)) s1
              ∙ ap (read m) s2
              ∙ sym (rw a (rw b refl))
          | inr missing ↦ rw (one_missing missing) (
              sym (
                and_missing (is_present (m.word (entry_at m.cr3 (index 3 virt))))
                  (is_present (pdp_entry m))
                  (is_huge (
                    m.word (
                      entry_at (next_table (next_table m.cr3 (index 3 virt) m) (index 2 virt) m)
                        (index 1 virt))))
                  missing))
        ]

  -- In a huge page the blocks have changed nothing.
  pub huge_same : in_huge virt m ≡ true → state2 m virt flags ≡ m
  unfolding in_huge
  huge_same h = let (a, b) = and_first _ _ _ h in (both_present a b).1
