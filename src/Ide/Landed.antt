-- ===== src/Ide/Landed.antt =====
-- The bytes of a stream in the words of a buffer of src/impl/drivers/storage/ide.c.
use nans_os.Base.{
  ℕ, zero, suc, ◌+◌, ◌-◌, ◌≡◌, inl, inr, refl, ap, ◌∙◌, arith, ◌&&◌, List, [], ◌∷◌, length, get_or,
  get_or-cons, ltb, leb, if◌then◌else◌, Bool-cases,
}
use nans_os.Ide.{Words, write_word}

abbrev pub drop : ℕ → List ℕ → List ℕ
drop zero cs = cs
drop (suc k) [] = []
drop (suc k) (c ∷ cs) = drop k cs

pub length-drop : (k : ℕ) (cs : List ℕ) → length (drop k cs) ≡ length cs - k
length-drop zero cs = omega arith
length-drop (suc k) [] = omega arith
length-drop (suc k) (c ∷ cs) = omega (arith, length-drop k cs)

pub get_or-drop : (k i : ℕ) (cs : List ℕ) → get_or (drop k cs) i 0 ≡ get_or cs (k + i) 0
get_or-drop zero i cs = ap (λ (n : ℕ). get_or cs n 0) (omega arith)
get_or-drop (suc k) i [] = refl
get_or-drop (suc k) i (c ∷ cs) =
    let e : suc k + i ≡ suc (k + i) = omega arith in rw e (get_or-drop k i cs)

-- The bytes of a stream in the words of a buffer, from a place on.
abbrev pub landed : Words → ℕ → ℕ → List ℕ → ℕ → ℕ
landed b at k cs i = if leb at i && ltb i (at + k) then get_or cs (i - at) 0 else b i

pub landed-cons :
    (b : Words) (at w k c : ℕ) (cs : List ℕ) (i : ℕ)
    → w ≡ c
    → landed (write_word b at w) (at + 1) k cs i ≡ landed b at (suc k) (c ∷ cs) i
landed-cons b at w k c cs i e =
    let n : i - at - 1 ≡ i - (at + 1) = omega arith in
    ground (arith, get_or-cons c cs (i - at) 0, ap (λ (n : ℕ). get_or cs n 0) n)

-- Two parts of a stream, one behind the other.
pub landed-landed :
    (b : Words) (at k k' : ℕ) (cs : List ℕ) (i : ℕ)
    → landed (landed b at k cs) (at + k) k' (drop k cs) i ≡ landed b at (k + k') cs i
landed-landed b at k k' cs i = elim (Bool-cases (leb (at + k) i)) [
  | inl later ↦
      let n : k + (i - (at + k)) ≡ i - at = ground arith in
      let c = get_or-drop k (i - (at + k)) cs ∙ ap (λ (n : ℕ). get_or cs n 0) n in ground arith
  | inr sooner ↦ ground arith
]
