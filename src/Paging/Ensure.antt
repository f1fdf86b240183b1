-- ===== src/Paging/Ensure.antt =====
-- What the blocks `Ensure ... exists` of `mmu_map_page` in src/impl/kernel/mmu.c do to the tables.
use nans_os.Base.{
  ℕ, suc, ◌+◌, ◌^◌, ◌≤◌, ◌<◌, ◌≡◌, ◌≢◌, inl, inr, refl, ap, ◌∙◌, arith, true, false, ◌&&◌, some,
  List, [], ◌∷◌, bit_or, ◌==◌, if◌then◌else◌, Bool-cases, ==_iff,
}
use nans_os.Paging.{
  Mmu, is_present, is_huge, frame_of, index, entry_at, next_table, put_entry, alloc_table, ensure,
}
use nans_os.Paging.Entries.{IsFlags, table-entry}
use nans_os.Paging.Tables.{Places, InOrder, above, index-lt, same_entry, entry-in_page, place-level}
use nans_os.Paging.Lookup.{lookup-absent, lookup-into_empty, translate, Agree, lookup-agree}

-- What holds of the state after an entry of a table was ensured: the tables are in order and keep
-- their places, the entry leads to a table, the other entries and all translations are kept.
pub record Ensured (place place' : Places) (m m' : Mmu) (table level : ℕ) (path : List ℕ) (i : ℕ)
    : Type 0 where
  pub order : InOrder place' m'
  pub extends : (t l : ℕ) (p : List ℕ) → place t ≡ some (l, p) → place' t ≡ some (l, p)
  pub present : is_present (m'.word (entry_at table i)) ≡ true
  pub small : (level == 0 && is_huge (m'.word (entry_at table i))) ≡ false
  pub keeps :
      (t l : ℕ) (p : List ℕ) (j : ℕ)
      → place t ≡ some (l, p)
      → j < 512
      → entry_at t j ≢ entry_at table i
      → m'.word (entry_at t j) ≡ m.word (entry_at t j)
  pub translates : (virt : ℕ) → translate virt m' ≡ translate virt m
  pub same_root : m'.cr3 ≡ m.cr3
  pub room : m'.next_free_page ≤ m.next_free_page + 4096
  pub same : is_present (m.word (entry_at table i)) ≡ true → m' ≡ m
  pub zeros :
      is_present (m.word (entry_at table i)) ≡ false
      → (j : ℕ) → j < 512
      → m'.word (entry_at (next_table table i m') j) ≡ 0

module _ (place : Places) (m : Mmu) (flags table level : ℕ) (path : List ℕ) (i : ℕ)
    (o : InOrder place m) (f : IsFlags flags) (at : place table ≡ some (suc level, path))
    (hi : i < 512) (room : m.next_free_page + 4096 < 2 ^ 64) where
  abbrev entry : ℕ
  entry = entry_at table i

  abbrev fresh : ℕ
  fresh = m.next_free_page

  abbrev after : Mmu
  after = put_entry entry (bit_or fresh flags) (alloc_table m)

  abbrev place' : Places
  place' = λ t. if t == fresh then some (level, i ∷ path) else place t

  entry-old : entry < fresh
  entry-old =
      entry-in_page table i fresh (o.aligned table (suc level) path at) o.next
        (o.old table (suc level) path at) hi

  -- The words after the block.
  word_here : after.word entry ≡ bit_or fresh flags
  unfolding put_entry
  word_here = ground arith

  word_fresh : (j : ℕ) → j < 512 → after.word (entry_at fresh j) ≡ 0
  unfolding put_entry alloc_table
  word_fresh j hj = ground (arith, entry-old)

  word_old :
      (t l : ℕ) (p : List ℕ) (j : ℕ)
      → place t ≡ some (l, p)
      → j < 512
      → entry_at t j ≢ entry
      → after.word (entry_at t j) ≡ m.word (entry_at t j)
  unfolding put_entry alloc_table
  word_old t l p j pt hj ne =
      let b = entry-in_page t j fresh (o.aligned t l p pt) o.next (o.old t l p pt) hj in
      ground arith

  extends_place : (t l : ℕ) (p : List ℕ) → place t ≡ some (l, p) → place' t ≡ some (l, p)
  extends_place t l p pt = let b = o.old t l p pt in ground arith

  place_fresh : place' fresh ≡ some (level, i ∷ path)
  place_fresh = ground arith

  new_leads :
      (t l : ℕ) (p : List ℕ) (j : ℕ)
      → place' t ≡ some (suc l, p)
      → j < 512
      → is_present (after.word (entry_at t j)) ≡ true
      → (l == 0 && is_huge (after.word (entry_at t j))) ≡ false
      → place' (frame_of (after.word (entry_at t j))) ≡ some (l, j ∷ p)
  new_leads t l p j pt hj here small = elim (Bool-cases (t == fresh)) [
    | inl is_fresh ↦
        let te : t ≡ fresh = (==_iff t fresh).0 is_fresh in
        let z : after.word (entry_at t j) ≡ 0 = rw te (word_fresh j hj) in absurd (ground arith)
    | inr not_fresh ↦
        let old_place : place t ≡ some (suc l, p) = ground arith in
        let al = o.aligned t (suc l) p old_place in
        elim (Bool-cases (entry_at t j == entry)) [
          | inl is_entry ↦
              let (te, je) =
                same_entry t j table i al (o.aligned table (suc level) path at) hj hi
                  ((==_iff (entry_at t j) entry).0 is_entry) in
              let q : place t ≡ some (suc level, path) = rw te at in
              let (le, pe) = place-level old_place q in
              let w : after.word (entry_at t j) ≡ bit_or fresh flags =
                ap after.word ((==_iff (entry_at t j) entry).0 is_entry) ∙ word_here in
              let fr : frame_of (after.word (entry_at t j)) ≡ fresh =
                ap (λ (n : ℕ). frame_of n) w ∙ (table-entry fresh flags o.next f).2 in
              ap place' fr ∙ place_fresh ∙ ground arith
          | inr other ↦
              let same = word_old t (suc l) p j old_place hj (λ e. ground arith) in
              let here' : is_present (m.word (entry_at t j)) ≡ true = rw (← same) here in
              let small' : (l == 0 && is_huge (m.word (entry_at t j))) ≡ false =
                rw (← same) small in
              ap (λ (n : ℕ). place' (frame_of n)) same
              ∙ extends_place (frame_of (m.word (entry_at t j))) l (j ∷ p)
                  (o.leads t l p j old_place hj here' small')
        ]
  ]

  after-InOrder : InOrder place' after
  unfolding put_entry alloc_table
  after-InOrder = record {
    root = extends_place m.cr3 3 [] o.root;
    leads = new_leads;
    aligned = λ t l p pt. elim (Bool-cases (t == fresh)) [
      | inl e ↦ let n = o.next in ground arith
      | inr e ↦ o.aligned t l p (ground arith)
    ];
    old = λ t l p pt. elim (Bool-cases (t == fresh)) [
      | inl e ↦ ground arith
      | inr e ↦ let b = o.old t l p (ground arith) in ground arith
    ];
    next = let n = o.next in ground arith;
  }

  after_entry :
      (is_present (after.word entry) ≡ true)
      × ((level == 0 && is_huge (after.word entry)) ≡ false)
      × (frame_of (after.word entry) ≡ fresh)
  after_entry =
      let (a, b, c) = table-entry fresh flags o.next f in
      (
        ap (λ (n : ℕ). is_present n) word_here ∙ a,
        ap (λ (n : ℕ). level == 0 && is_huge n) word_here ∙ rw b (ground arith),
        ap (λ (n : ℕ). frame_of n) word_here ∙ c,
      )

  after-Agree :
      (absent : is_present (m.word entry) ≡ false) (virt l t : ℕ)
      → place t ≡ some (l, above l virt)
      → Agree virt m after l t
  after-Agree absent virt l t pt = elim (Bool-cases (entry_at t (index l virt) == entry)) [
    | inr other ↦
        inl (word_old t l (above l virt) (index l virt) pt (index-lt l virt) (λ e. ground arith))
    | inl is_entry ↦
        let e : entry_at t (index l virt) ≡ entry =
          (==_iff (entry_at t (index l virt)) entry).0 is_entry in
        let (te, ie) =
          same_entry t (index l virt) table i (o.aligned t l (above l virt) pt)
            (o.aligned table (suc level) path at) (index-lt l virt) hi e in
        let q : place t ≡ some (suc level, path) = rw te at in
        let le : l ≡ suc level = (place-level pt q).0 in
        let (here, small, fr) = after_entry in
        inr (
          lookup-into_empty l level t entry fresh virt after le e here small fr
              (word_fresh (index level virt) (index-lt level virt)),
          lookup-absent l t virt m (rw e absent),
        )
  ]

  absent-Ensured :
      is_present (m.word entry) ≡ false → Ensured place place' m after table level path i
  unfolding put_entry alloc_table
  absent-Ensured absent = record {
    order = after-InOrder;
    extends = extends_place;
    present = after_entry.0;
    small = after_entry.1;
    keeps = word_old;
    translates = λ virt.
        lookup-agree place m after virt o (λ l t. after-Agree absent virt l t) 3 m.cr3 (omega arith)
          o.root;
    same_root = refl;
    room = ground arith;
    same = λ here. absurd (ground arith);
    zeros = λ gone j hj. ap (λ (n : ℕ). after.word (entry_at n j)) after_entry.2 ∙ word_fresh j hj;
  }

  pub ensured :
      (level == 0 && is_huge (m.word entry)) ≡ false
      → (p : Places) × Ensured place p m (ensure table i flags m) table level path i
  unfolding ensure
  ensured small = elim (Bool-cases (is_present (m.word entry))) [
    | inl here ↦ rw here (
      place,
      record {
        order = o;
        extends = λ t l p pt. pt;
        present = here;
        small = small;
        keeps = λ t l p j pt hj ne. refl;
        translates = λ virt. refl;
        same_root = refl;
        room = omega arith;
        same = λ h. refl;
        zeros = λ gone j hj. absurd (ground arith);
      },
    )
    | inr absent ↦ rw absent (place', absent-Ensured absent)
  ]
