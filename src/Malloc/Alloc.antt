-- ===== src/Malloc/Alloc.antt =====
-- What `malloc` of stdlib.c grants.
use nans_os.Base.{
  ℕ, ◌+◌, ◌%◌, ◌≤◌, ◌≡◌, refl, ap, ◌∙◌, true, false, inl, inr, List, [], ◌∷◌, ◌++◌, arith, ◌==◌,
  leb, append-nil, sym, Option, none, some, Bool-cases,
}
use nans_os.Malloc.{
  MemBlock, header, size_mod, Heap, split_block, take_block, fits, alloc_in, align8, extend, malloc,
  mmu_alloc_page, page_size, init_block, alloc_size,
}
use nans_os.Malloc.Chain.{
  Chain, used, IsValid, Chain-append, Chain-split, Chain-le, Granted, heap_base, top,
}

-- Taking a block puts it in use, and nothing else.
record Taken (b : MemBlock) (size : ℕ) (bs : List MemBlock) : Type 0 where
  block : MemBlock
  is_now : used (take_block b size ++ bs) ≡ block ∷ used bs
  place : block.addr ≡ b.addr
  large : size ≤ block.size

used-take : (b : MemBlock) (size : ℕ) (bs : List MemBlock) → size ≤ b.size → Taken b size bs
unfolding take_block split_block
used-take b size bs h = elim (Bool-cases (leb ((size + header + 32) % size_mod) b.size)) [
  | inl e ↦ record {
    block = record b { size = size; is_free = false };
    is_now = rw e;
    place = refl;
    large = omega arith;
  }
  | inr e ↦ record { block = record b { is_free = false }; is_now = rw e; place = refl; large = h }
]

Chain-take :
    (b : MemBlock) (size lo hi : ℕ) (bs : List MemBlock)
    → Chain lo (b ∷ bs) hi
    → hi ≤ top
    → size ≤ b.size
    → Chain lo (take_block b size ++ bs) hi
unfolding take_block
Chain-take b size lo hi bs c m n =
    let le : b.addr + header + b.size ≤ hi = Chain-le (b.addr + header + b.size) bs hi c.1 in
    Chain-append lo (split_block (record b { is_free = false }) size) bs (b.addr + header + b.size)
      hi
      (Chain-split (record b { is_free = false }) size lo (b.addr + header + b.size) c.0
        (omega arith) (omega arith) n)
      c.1

-- A block that does not fit stays in front of the grant.
pub Granted-cons :
    (b : MemBlock) (size p : ℕ) (bs bs' : List MemBlock)
    → Granted size p bs bs'
    → Granted size p (b ∷ bs) (b ∷ bs')
Granted-cons b size p bs bs' g = elim (Bool-cases b.is_free) [
  | inl e ↦ record {
    before = g.before;
    after = g.after;
    block = g.block;
    was = simp e g.was;
    is_now = simp e g.is_now;
    place = g.place;
    large = g.large;
  }
  | inr e ↦ record {
    before = b ∷ g.before;
    after = g.after;
    block = g.block;
    was = simp e (ap (λ l. b ∷ l) g.was);
    is_now = simp e (ap (λ l. b ∷ l) g.is_now);
    place = g.place;
    large = g.large;
  }
]

Granted-here :
    (b : MemBlock) (size : ℕ) (bs : List MemBlock)
    → b.is_free ≡ true
    → size ≤ b.size
    → Granted size (b.addr + header) (b ∷ bs) (take_block b size ++ bs)
Granted-here b size bs e h =
    let t : Taken b size bs = used-take b size bs h in
    record {
      before = [];
      after = used bs;
      block = t.block;
      was = rw e;
      is_now = t.is_now;
      place = omega (arith, t.place);
      large = t.large;
    }

-- What holds of a search's result: nothing if no block fits.
abbrev Outcome : ℕ → ℕ → ℕ → List MemBlock → Option (ℕ × List MemBlock) → Type 0
Outcome size lo hi bs none = Unit
Outcome size lo hi bs (some (p, bs')) = Chain lo bs' hi × Granted size p bs bs'

Outcome-cons :
    (size lo hi : ℕ) (b : MemBlock) (bs : List MemBlock) (o : Option (ℕ × List MemBlock))
    → lo ≤ b.addr
    → Outcome size (b.addr + header + b.size) hi bs o
    → Outcome size lo hi (b ∷ bs) (elim o [ none ↦ none | some (p, bs') ↦ some (p, b ∷ bs') ])
Outcome-cons size lo hi b bs none le g = tt
Outcome-cons size lo hi b bs (some (p, bs')) le g = ((le, g.0), Granted-cons b size p bs bs' g.1)

alloc_in-Outcome :
    (size lo hi : ℕ) (bs : List MemBlock)
    → Chain lo bs hi
    → hi ≤ top
    → Outcome size lo hi bs (alloc_in size bs)
unfolding alloc_in
alloc_in-Outcome size lo hi [] c m = tt
alloc_in-Outcome size lo hi (b ∷ bs) c m = elim (Bool-cases (fits size b)) [
  | inl f ↦
      let large : size ≤ b.size = ground arith in
      rw f (Chain-take b size lo hi bs c m large, Granted-here b size bs (ground arith) large)
  | inr f ↦ rw f (
      Outcome-cons size lo hi b bs (alloc_in size bs) c.0
        (alloc_in-Outcome size (b.addr + header + b.size) hi bs c.1 m))
]

used-append : (bs cs : List MemBlock) → used (bs ++ cs) ≡ used bs ++ used cs
used-append [] cs = refl
used-append (b ∷ bs) cs = elim (Bool-cases b.is_free) [
  | inl e ↦ simp e (used-append bs cs)
  | inr e ↦ simp e (ap (λ l. b ∷ l) (used-append bs cs))
]

-- `(size + 7) & ~7` covers the size and is a multiple of 8.
pub align8-le : (size : ℕ) → size ≤ 4072 → (size ≤ align8 size) × (align8 size ≤ 4072)
unfolding align8
align8-le size h = omega arith

-- A page holds the header and an aligned request of at most 4072 bytes.
abbrev page_block : ℕ → MemBlock
page_block page = record { addr = page; size = 4072; is_free = true }

init_block-page :
    (page size : ℕ) → size ≤ 4072 → init_block page (alloc_size size) ≡ page_block page
init_block-page page size h = ground arith

Granted-extend :
    (b : MemBlock) (size : ℕ) (bs : List MemBlock)
    → size ≤ b.size
    → Granted size (b.addr + header) bs (bs ++ take_block b size)
Granted-extend b size bs h =
    let t : Taken b size [] = used-take b size [] h in
    record {
      before = used bs;
      after = [];
      block = t.block;
      was = sym (append-nil (used bs));
      is_now =
          used-append bs (take_block b size)
          ∙ ap (λ l. used bs ++ used l) (sym (append-nil (take_block b size)))
          ∙ ap (λ l. used bs ++ l) t.is_now;
      place = omega (arith, t.place);
      large = t.large;
    }

-- What a call of `malloc` may rely on: the chain is well formed and there is a page left.
abbrev pub Ready : Heap → Type 0
Ready h = IsValid h × (h.next_free_page + page_size ≤ top)

pub page_ne_zero : (page : ℕ) → heap_base ≤ page → (page == 0) ≡ false
page_ne_zero page h = ground arith

extend-Granted :
    (size : ℕ) (h : Heap)
    → Ready h
    → size ≤ 4072
    → IsValid (extend size h).1 × Granted size (extend size h).0 h.chain (extend size h).1.chain
unfolding extend mmu_alloc_page
extend-Granted size h (v, r) le =
    let page : ℕ = h.next_free_page in
    let low : heap_base ≤ page = Chain-le heap_base h.chain page v.blocks in
    let next : (page + page_size) % size_mod ≡ page + page_size = omega arith in
    let fresh : Chain page (take_block (page_block page) size) (page + page_size) =
      unfold take_block in
      Chain-split (record (page_block page) { is_free = false }) size page (page + page_size)
        (omega arith) (omega arith) r le in
    rw (page_ne_zero page low, next, init_block-page page size le)
      (
        record {
          blocks =
              Chain-append heap_base h.chain (take_block (page_block page) size) page
                (page + page_size) v.blocks fresh;
          bounded = r;
        },
        Granted-extend (page_block page) size h.chain le,
      )

Granted-mono :
    (size size' p : ℕ) (old new : List MemBlock)
    → size ≤ size'
    → Granted size' p old new
    → Granted size p old new
Granted-mono size size' p old new h g = record {
  before = g.before;
  after = g.after;
  block = g.block;
  was = g.was;
  is_now = g.is_now;
  place = g.place;
  large = omega (arith, g.large);
}

-- `malloc` behind its test for 0, over the result of the search.
abbrev granted_or_extend : ℕ → Heap → Option (ℕ × List MemBlock) → ℕ × Heap
granted_or_extend size h o = elim o [
  | none ↦ extend (align8 size) h
  | some (p, c) ↦ (p, record h { chain = c })
]

malloc-Outcome :
    (size : ℕ) (h : Heap) (o : Option (ℕ × List MemBlock))
    → Ready h
    → (size ≤ align8 size) × (align8 size ≤ 4072)
    → Outcome (align8 size) heap_base h.next_free_page h.chain o
    → let (p, h') = granted_or_extend size h o in IsValid h' × Granted size p h.chain h'.chain
malloc-Outcome size h none r a g =
    let e : IsValid (extend (align8 size) h).1
        × Granted (align8 size) (extend (align8 size) h).0 h.chain
            (extend (align8 size) h).1.chain =
      extend-Granted (align8 size) h r a.1 in
    (
      e.0,
      Granted-mono size (align8 size) (extend (align8 size) h).0 h.chain
          (extend (align8 size) h).1.chain a.0 e.1,
    )
malloc-Outcome size h (some (p, c)) r a g = (
  record { blocks = g.0; bounded = r.0.bounded },
  Granted-mono size (align8 size) p h.chain c a.0 g.1,
)

-- With a chain in order and a page left, a request for 1 to 4072 bytes is met: the chain stays in
-- order and without overlaps, and exactly one block comes into use, at the pointer that is returned
-- and large enough; every block that was in use keeps its place and size.
pub malloc-Granted :
    (size : ℕ) (h : Heap)
    → Ready h
    → 1 ≤ size
    → size ≤ 4072
    → IsValid (malloc size h).1 × Granted size (malloc size h).0 h.chain (malloc size h).1.chain
unfolding malloc
malloc-Granted size h r pos le =
    let z : (size == 0) ≡ false = ground arith in
    let a : (size ≤ align8 size) × (align8 size ≤ 4072) = align8-le size le in
    rw z (
      malloc-Outcome size h (alloc_in (align8 size) h.chain) r a
        (alloc_in-Outcome (align8 size) heap_base h.next_free_page h.chain r.0.blocks r.0.bounded))
