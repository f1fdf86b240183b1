-- ===== src/Keyboard/Silence.antt =====
-- How long `keyboard_init` of src/impl/drivers/keyboard/keyboard.c listens before it gives up.
use nans_os.Base.{
  ℕ, zero, suc, not, ◌&&◌, List, [], ◌∷◌, none, some, ◌≡◌, refl, arith, Bool, true, false, Option,
  ◌==◌, if◌then◌else◌, Bool-cases, inl, inr,
}
use nans_os.Pic.{Ports, port_byte_in, port_byte_out}
use nans_os.Keyboard.{Cpu, has_data, input_full, wait_while, await, answered}

-- The bytes that arrive in `k` rounds of polling, in which each byte is read as soon as it is there.
abbrev pub heard : {M : Type 0} → Ports M → ℕ → M → List ℕ
heard p zero m = []
heard p (suc k) m =
    let (status, m1) = p.inb 0x64 m in
    let (byte, m2) = p.inb 0x60 m1 in if has_data status then byte ∷ heard p k m2 else heard p k m1

-- None of the bytes is wanted.
abbrev pub none_of : (ℕ → Bool) → List ℕ → Bool
none_of wanted [] = true
none_of wanted (c ∷ cs) = not (wanted c) && none_of wanted cs

-- `k` polls in a row find that the controller takes no byte.
abbrev pub refuses : {M : Type 0} → Ports M → ℕ → M → Bool
refuses p zero m = true
refuses p (suc k) m = let (status, m1) = p.inb 0x64 m in input_full status && refuses p k m1

-- A command to a port after which 99999 rounds of polling bring no byte that is wanted.
abbrev pub Unanswered : {M : Type 0} → Ports M → (port command : ℕ) → (ℕ → Bool) → Type 0
Unanswered {M} p port command wanted =
    (m : M) × (none_of wanted (heard p 99999 (p.outb port command m)) ≡ true)

-- Once a reset is acknowledged, 99999 rounds bring no 0xAA.
abbrev pub Untested : {M : Type 0} → Ports M → Cpu M → Type 0
Untested {M} p cpu =
    (m : M) × ((answered p cpu 0xFF 0xFA m).0 ≡ true)
    × (none_of (λ b. b == 0xAA) (heard p 99999 (answered p cpu 0xFF 0xFA m).1) ≡ true)

-- Why `keyboard_init` may give up: the controller takes no byte in 100000 polls, does not tell its
-- configuration, or the keyboard does not acknowledge the reset, pass its test, or acknowledge that
-- it is enabled.
pub data Silence {M : Type 0} (p : Ports M) (cpu : Cpu M) (m : M) : Type 0 where
  refused : refuses p 100000 (cpu.cli m) ≡ true → Silence p cpu m
  no_config : Unanswered p 0x64 0x20 (λ b. true) → Silence p cpu m
  no_reset : Unanswered p 0x60 0xFF (λ b. b == 0xFA) → Silence p cpu m
  no_test : Untested p cpu → Silence p cpu m
  not_enabled : Unanswered p 0x60 0xF4 (λ b. b == 0xFA) → Silence p cpu m

module _ {M : Type 0} (p : Ports M) (cpu : Cpu M) where
  pub await-silent :
      (wanted : ℕ → Bool) (k : ℕ) (m : M)
      → (await p cpu wanted k m).0 ≡ none
      → none_of wanted (heard p k m) ≡ true
  unfolding await port_byte_in
  await-silent wanted zero m = λ e. refl
  await-silent wanted (suc k) m =
      let m1 : M = (p.inb 0x64 m).1 in
      let m2 : M = (p.inb 0x60 m1).1 in
      elim (Bool-cases (has_data (p.inb 0x64 m).0)) [
        | inr e ↦ rw e (await-silent wanted k m1)
        | inl e ↦ rw e (elim (Bool-cases (wanted (p.inb 0x60 m1).0)) [
          | inl w ↦ rw w λ q. absurd (ground (arith, q))
          | inr w ↦ rw w (await-silent wanted k m2)
        ])
      ]

  pub wait-refused :
      (k : ℕ) (m : M) → ((wait_while p cpu input_full k m).0 == 0) ≡ true → refuses p k m ≡ true
  unfolding wait_while port_byte_in
  wait-refused zero m = λ e. refl
  wait-refused (suc k) m = elim (Bool-cases (input_full (p.inb 0x64 m).0)) [
    | inl e ↦ rw e (wait-refused k (p.inb 0x64 m).1)
    | inr e ↦ rw e λ q. absurd (ground (arith, q))
  ]

  pub unanswered :
      (command answer : ℕ) (m : M)
      → (answered p cpu command answer m).0 ≡ false
      → Unanswered p 0x60 command (λ b. b == answer)
  unfolding port_byte_out
  unanswered command answer m e = (
    m,
    await-silent (λ b. b == answer) 99999 (p.outb 0x60 command m)
        (no_byte (await p cpu (λ b. b == answer) 99999 (p.outb 0x60 command m)).0 e),
  )
    where
      no_byte :
          (o : Option ℕ) → ◌≡◌ {A = Bool} (elim o [ none ↦ false | some b ↦ true ]) false → o ≡ none
      no_byte none q = refl
      no_byte (some b) q = absurd (ground (arith, q))
