-- ===== src/Pic/Masks.antt =====
-- Masking an interrupt, and no other.
use nans_os.Base.{
  ℕ, ◌/◌, ◌%◌, ◌^◌, ◌<◌, ◌≡◌, ◌≢◌, ◌⊎◌, inl, inr, refl, sym, ap, ◌∙◌, arith, Bool, true, false,
  ◌&&◌, ◌||◌, not, ltb, ◌==◌, if◌then◌else◌, passes, passes-at, ==_iff, Bool-cases,
}
use nans_os.Pic.{
  Ports, port_byte_in, port_byte_out, pic1_data, pic2_data, data_port, line_of, with_bit,
  without_bit, pic_set_mask, pic_clear_mask,
}

abbrev pub bit : ℕ → ℕ → Bool
bit k v = v / 2 ^ k % 2 == 1

same : Bool → Bool → Bool
same true b = b
same false b = not b

set_agrees : ℕ → ℕ → ℕ → Bool
set_agrees i k v = same (bit k (with_bit v i)) (k == i || bit k v)

set_table : passes 8 (λ i. passes 8 (λ k. passes 256 (λ v. set_agrees i k v))) ≡ true
unfolding passes set_agrees same
set_table = refl

clear_agrees : ℕ → ℕ → ℕ → Bool
clear_agrees i k v = same (bit k (without_bit v i)) (not (k == i) && bit k v)

clear_table : passes 8 (λ i. passes 8 (λ k. passes 256 (λ v. clear_agrees i k v))) ≡ true
unfolding passes clear_agrees same
clear_table = refl

range_in_table : ℕ → ℕ → ℕ → Bool
range_in_table i k v = ltb (without_bit v i) 256

range_table : passes 8 (λ i. passes 1 (λ k. passes 256 (λ v. range_in_table i k v))) ≡ true
unfolding passes range_in_table
range_table = refl

same_eq : (a b : Bool) → same a b ≡ true → a ≡ b
unfolding same
same_eq true true h = refl
same_eq true false h = absurd (ground arith)
same_eq false true h = absurd (ground arith)
same_eq false false h = refl

-- A table over lines and bytes, read at one place.
at_place :
    (test : ℕ → ℕ → ℕ → Bool) (n i k v : ℕ)
    → passes 8 (λ i. passes n (λ k. passes 256 (λ v. test i k v))) ≡ true
    → i < 8
    → k < n
    → v < 256
    → test i k v ≡ true
at_place test n i k v h hi hk hv =
    passes-at 256 (test i k) v
      (passes-at n (λ k. passes 256 (test i k)) k
        (passes-at 8 (λ i. passes n (λ k. passes 256 (test i k))) i h hi) hk)
      hv

set_bit : (i k v : ℕ) → i < 8 → k < 8 → v < 256 → bit k (with_bit v i) ≡ (k == i || bit k v)
unfolding set_agrees
set_bit i k v hi hk hv =
    same_eq (bit k (with_bit v i)) (k == i || bit k v)
      (at_place set_agrees 8 i k v set_table hi hk hv)

clear_bit :
    (i k v : ℕ) → i < 8 → k < 8 → v < 256 → bit k (without_bit v i) ≡ (not (k == i) && bit k v)
unfolding clear_agrees
clear_bit i k v hi hk hv =
    same_eq (bit k (without_bit v i)) (not (k == i) && bit k v)
      (at_place clear_agrees 8 i k v clear_table hi hk hv)

without_bit-lt : (i v : ℕ) → i < 8 → v < 256 → without_bit v i < 256
unfolding range_in_table
without_bit-lt i v hi hv =
    ground (arith, at_place range_in_table 1 i 0 v range_table hi (omega arith) hv)

abbrev pub IsData : ℕ → Type 0
IsData port = (port ≡ pic1_data) ⊎ (port ≡ pic2_data)

-- What the code relies on of the controllers: a data port reads as the mask that was written to it
-- last, and a write to one leaves the other's.
pub record Latched {M : Type 0} (p : Ports M) (mask : ℕ → M → ℕ) : Type 0 where
  pub reads : (port : ℕ) (m : M) → IsData port → p.inb port m ≡ (mask port m, m)
  pub byte : (port : ℕ) (m : M) → mask port m < 256
  pub keeps : (port v : ℕ) (m : M) → IsData port → v < 256 → mask port (p.outb port v m) ≡ v
  pub other :
      (port port' v : ℕ) (m : M)
      → IsData port
      → IsData port'
      → port ≢ port'
      → mask port' (p.outb port v m) ≡ mask port' m

data_port-IsData : (irq : ℕ) → IsData (data_port irq)
data_port-IsData irq = elim (Bool-cases (ltb irq 8)) [
  | inl e ↦ rw e (inl refl)
  | inr e ↦ rw e (inr refl)
]

-- Whether the mask has the bit of an interrupt.
abbrev pub is_masked : {M : Type 0} → (ℕ → M → ℕ) → ℕ → M → Bool
is_masked mask irq m = bit (line_of irq) (mask (data_port irq) m)

module _ {M : Type 0} (p : Ports M) (mask : ℕ → M → ℕ) (l : Latched p mask) where
  line-lt : (irq : ℕ) → irq < 16 → line_of irq < 8
  line-lt irq h = ground arith

  -- Writing a byte to the port of `irq`: the bit of `j` after it.
  after_write :
      (irq j v : ℕ) (m : M)
      → v < 256
      → is_masked mask j (p.outb (data_port irq) v m)
        ≡ (if data_port irq == data_port j then bit (line_of j) v else is_masked mask j m)
  after_write irq j v m h = elim (Bool-cases (data_port irq == data_port j)) [
    | inl e ↦
        let q : data_port irq ≡ data_port j = (==_iff (data_port irq) (data_port j)).0 e in
        rw e (
          ap (λ (n : ℕ). bit (line_of j) n)
            (ap (λ (n : ℕ). mask n (p.outb (data_port irq) v m)) (sym q)
              ∙ l.keeps (data_port irq) v m (data_port-IsData irq) h))
    | inr e ↦ rw e (
        ap (λ (n : ℕ). bit (line_of j) n)
          (l.other (data_port irq) (data_port j) v m (data_port-IsData irq) (data_port-IsData j)
            (λ q. ground arith)))
  ]

  -- The byte that is written where the two interrupts have one controller.
  mask_of_same :
      (irq j : ℕ) (m : M)
      → (data_port irq == data_port j) ≡ true
      → mask (data_port irq) m ≡ mask (data_port j) m
  mask_of_same irq j m e = ap (λ (n : ℕ). mask n m) ((==_iff (data_port irq) (data_port j)).0 e)

  set-written :
      (irq : ℕ) (m : M)
      → pic_set_mask p irq m
        ≡ p.outb (data_port irq) (with_bit (mask (data_port irq) m) (line_of irq)) m
  unfolding pic_set_mask port_byte_in port_byte_out
  set-written irq m = rw (l.reads (data_port irq) m (data_port-IsData irq), pic_set_mask) refl

  clear-written :
      (irq : ℕ) (m : M)
      → pic_clear_mask p irq m
        ≡ p.outb (data_port irq) (without_bit (mask (data_port irq) m) (line_of irq)) m
  unfolding pic_clear_mask port_byte_in port_byte_out
  clear-written irq m = rw (l.reads (data_port irq) m (data_port-IsData irq), pic_clear_mask) refl

  -- The line tells two interrupts of one controller apart.
  same_line :
      (irq j : ℕ)
      → irq < 16
      → j < 16
      → (j == irq) ≡ ((data_port irq == data_port j) && (line_of j == line_of irq))
  same_line irq j hi hj = ground arith

  -- The bit of `j` after a write for `irq`, from the bit that the written byte has.
  combined :
      (irq j v : ℕ) (m : M) (f : Bool → Bool → Bool)
      → irq < 16
      → j < 16
      → v < 256
      → ((b : Bool) → f false b ≡ b)
      → bit (line_of j) v ≡ f (line_of j == line_of irq) (bit (line_of j) (mask (data_port irq) m))
      → is_masked mask j (p.outb (data_port irq) v m) ≡ f (j == irq) (is_masked mask j m)
  combined irq j v m f hi hj hv idle written =
      let w = after_write irq j v m hv in
      let at = same_line irq j hi hj in
      elim (Bool-cases (data_port irq == data_port j)) [
        | inl e ↦
            let le : (line_of j == line_of irq) ≡ (j == irq) = ground (arith, at) in
            let wr : is_masked mask j (p.outb (data_port irq) v m) ≡ bit (line_of j) v =
              ground (arith, w) in
            wr
            ∙ written
            ∙ ap (λ (b : Bool). f b (bit (line_of j) (mask (data_port irq) m))) le
            ∙ ap (λ (n : ℕ). f (j == irq) (bit (line_of j) n)) (mask_of_same irq j m e)
        | inr e ↦
            let ne : (j == irq) ≡ false = ground (arith, at) in
            let wr : is_masked mask j (p.outb (data_port irq) v m) ≡ is_masked mask j m =
              ground (arith, w) in
            wr
            ∙ sym (idle (is_masked mask j m))
            ∙ ap (λ (b : Bool). f b (is_masked mask j m)) (sym ne)
      ]

-- On controllers whose data ports read as the mask written last, masking one of the 16 interrupts
-- sets its bit and unmasking it clears the bit; the bit of no other is affected.
pub mask-one :
    {M : Type 0} (p : Ports M) (mask : ℕ → M → ℕ) (irq j : ℕ) (m : M)
    → Latched p mask
    → irq < 16
    → j < 16
    → (is_masked mask j (pic_set_mask p irq m) ≡ (j == irq || is_masked mask j m))
      × (is_masked mask j (pic_clear_mask p irq m) ≡ (not (j == irq) && is_masked mask j m))
mask-one p mask irq j m l hi hj =
    let old : ℕ = mask (data_port irq) m in
    let b : old < 256 = l.byte (data_port irq) m in
    let li : line_of irq < 8 = line-lt p mask l irq hi in
    let lj : line_of j < 8 = line-lt p mask l j hj in
    (
      ap (is_masked mask j) (set-written p mask l irq m)
          ∙ combined p mask l irq j (with_bit old (line_of irq)) m (λ x y. x || y) hi hj
              (omega arith) (λ y. refl) (set_bit (line_of irq) (line_of j) old li lj b),
      ap (is_masked mask j) (clear-written p mask l irq m)
          ∙ combined p mask l irq j (without_bit old (line_of irq)) m (λ x y. not x && y) hi hj
              (without_bit-lt (line_of irq) old li b) (λ y. refl)
              (clear_bit (line_of irq) (line_of j) old li lj b),
    )
