-- ===== src/Vfs/Paths.antt =====
-- The length of a normalised path.
use nans_os.Base.{
  ℕ, zero, suc, ◌+◌, ◌-◌, ◌≤◌, ◌<◌, ◌≡◌, refl, ap, arith, false, ◌&&◌, Option, none, some, [], ◌∷◌,
  ◌==◌, if◌then◌else◌, length, length-append, Bool-cases, inl, inr, Option-cases,
}
use nans_os.Vfs.{
  PathName, skip_slashes, ends_here, second_dot, drop_component, back_up, copy_component,
  normalize_step, normalize_loop, reversed, vfs_normalize_path, first_slash, terminate,
}

skip_slashes-le : (p : PathName) → length (skip_slashes p) ≤ length p
unfolding skip_slashes
skip_slashes-le [] = omega arith
skip_slashes-le (c ∷ cs) = ground (arith, skip_slashes-le cs)

drop_component-le : (out : PathName) → length (drop_component out) ≤ length out
unfolding drop_component
drop_component-le [] = omega arith
drop_component-le (c ∷ out) = ground (arith, drop_component-le out)

back_up-le : (out : PathName) → length (back_up out) ≤ length out
unfolding back_up
back_up-le [] = omega arith
back_up-le (c ∷ []) = omega arith
back_up-le (c ∷ d ∷ out) = omega (arith, drop_component-le (d ∷ out))

copy_component-length :
    (p out : PathName)
    → let (p', out') = copy_component p out in length p' + length out' ≡ length p + length out
unfolding copy_component
copy_component-length [] out = refl
copy_component-length (c ∷ cs) out = ground (arith, copy_component-length cs (c ∷ out))

copy_component-le : (p out : PathName) → length (copy_component p out).0 ≤ length p
unfolding copy_component
copy_component-le [] out = omega arith
copy_component-le (c ∷ cs) out = ground (arith, copy_component-le cs (c ∷ out))

-- A round makes the path shorter, and adds no more to the output than it takes from the path.
abbrev Shorter : PathName → PathName → PathName × PathName → Type 0
Shorter cs out (p', out') =
    (length p' ≤ length cs) × (length p' + length out' ≤ 1 + length cs + length out)

second_dot-le : (cs rest : PathName) → second_dot cs ≡ some rest → length rest ≤ length cs
unfolding second_dot
second_dot-le [] rest h = absurd (ground arith)
second_dot-le (c ∷ cs) rest h = ground arith

copy-Shorter :
    (c : ℕ) (cs out : PathName) → (c == b'/') ≡ false → Shorter cs out (copy_component (c ∷ cs) out)
unfolding copy_component
copy-Shorter c cs out h =
    ground (arith, copy_component-length cs (c ∷ out), copy_component-le cs (c ∷ out))

Outcome : ℕ → PathName → PathName → Option PathName → Type 0
Outcome c cs out o =
    Shorter cs out (elim o [ some rest ↦ (rest, back_up out) | none ↦ copy_component (c ∷ cs) out ])

step-Shorter : (c : ℕ) (cs out : PathName) → Shorter cs out (normalize_step c cs out)
unfolding normalize_step
step-Shorter c cs out = elim (Bool-cases (c == b'/')) [
  | inl e ↦ rw e (skip_slashes-le cs, ground (arith, skip_slashes-le cs))
  | inr e ↦ elim (Bool-cases (c == b'.' && ends_here cs)) [
    | inl d ↦ rw (e, d) (omega arith, omega arith)
    | inr d ↦ elim (Option-cases (if c == b'.' then second_dot cs else none)) [
      | inl n ↦ rw (e, d, n) (copy-Shorter c cs out e)
      | inr (rest, n) ↦
          let le : length rest ≤ length cs = ground (arith, second_dot-le cs rest) in
          rw (e, d, n) (le, omega (arith, back_up-le out))
    ]
  ]
]

loop-ends :
    (fuel : ℕ) (path out : PathName)
    → length path < fuel
    → (res : PathName) × (normalize_loop fuel path out ≡ some res)
      × (length res ≤ length path + length out)
unfolding normalize_loop
loop-ends zero path out h = absurd (omega arith)
loop-ends (suc f) [] out h = (out, refl, omega arith)
loop-ends (suc f) (c ∷ cs) out h =
    let (a, b) = step-Shorter c cs out in
    let (p', o') = normalize_step c cs out in
    let (res, e, le) = loop-ends f p' o' (omega (arith, a)) in (res, e, omega (arith, le, b))

length-reversed : (p : PathName) → length (reversed p) ≡ length p
unfolding reversed
length-reversed [] = refl
length-reversed (c ∷ cs) = omega (arith, length-append (reversed cs) (c ∷ []), length-reversed cs)

length-terminate :
    (out : PathName)
    → (1 ≤ length (terminate out)) × (length (terminate out) ≤ 1 + (length out - 1))
unfolding terminate
length-terminate [] = (omega arith, omega arith)
length-terminate (c ∷ out) =
    (omega (arith, length-reversed (c ∷ out)), omega (arith, length-reversed (c ∷ out)))

first_slash-length :
    (path : PathName) → let (rest, out) = first_slash path in length rest + length out ≡ length path
first_slash-length [] = refl
first_slash-length (c ∷ cs) = ground arith

-- With fuel for each byte of the path, `vfs_normalize_path` ends with a path that is not empty and
-- not longer than the one given, or one byte long: a path of up to 255 bytes fits in the buffer of
-- 256, its terminator included.
pub normalize-fits :
    (fuel : ℕ) (path : PathName)
    → length path < fuel
    → (res : PathName) × (vfs_normalize_path fuel path ≡ some res)
      × (1 ≤ length res)
      × (length res ≤ 1 + (length path - 1))
unfolding vfs_normalize_path
normalize-fits fuel path h =
    let (rest, out) = first_slash path in
    let (res, e, le) = loop-ends fuel rest out (omega (arith, first_slash-length path)) in
    let (a, b) = length-terminate res in
    (
      terminate res,
      ap (λ (o : Option PathName). elim o [ none ↦ none | some r ↦ some (terminate r) ]) e,
      a,
      omega (arith, b, le, first_slash-length path),
    )
