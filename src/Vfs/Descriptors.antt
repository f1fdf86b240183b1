-- ===== src/Vfs/Descriptors.antt =====
-- The table of file descriptors: opening, closing and seeking.
use nans_os.Base.{
  ℕ, zero, suc, ◌≤◌, ◌<◌, ◌≡◌, ◌≢◌, ◌⊎◌, inl, inr, refl, ap, sym, ◌∙◌, arith, true, false, some,
  List, [], ◌∷◌, ◌==◌, get_elem?, set, Bool-cases, Option-cases, leb, eq_of_some,
}
use nans_os.Base.Int.{ℤ, pos, negsuc, pos_part, error}
use mathlib.Core.Path.{subst}
use nans_os.Vfs.{
  max_fd, Driver, FileDescriptor, Vfs, open_entry, set_fd, vfs_seek, seek_target, within,
}

-- What the entry of an open descriptor is.
pub record Opened (fd : ℤ) (fds : List FileDescriptor) (n : ℕ) (f : FileDescriptor) : Type 0 where
  pub number : fd ≡ pos n
  pub small : n < max_fd
  pub entry : get_elem? fds n ≡ some f
  pub used : f.node ≢ 0

pub entry-Opened :
    (fd : ℤ) (fds : List FileDescriptor) (n : ℕ) (f : FileDescriptor)
    → open_entry fd fds ≡ some (n, f)
    → Opened fd fds n f
unfolding open_entry
entry-Opened (negsuc k) fds n f h = absurd (ground arith)
entry-Opened (pos k) fds n f h = elim (Bool-cases (leb max_fd k)) [
  | inl e ↦ absurd (ground arith)
  | inr e ↦ elim (Option-cases (get_elem? fds k)) [
    | inl g ↦ absurd (cc (rw (e, g) at h))
    | inr (x, g) ↦ elim (Bool-cases (x.node == 0)) [
      | inl u ↦ absurd (cc (rw (e, g, u) at h))
      | inr u ↦
          let q : Path (ℕ × FileDescriptor) (k, x) (n, f) = eq_of_some (rw (e, g, u) at h) in
          let number : k ≡ n = ap (λ (p : ℕ × FileDescriptor). p.0) q in
          let entry : x ≡ f = ap (λ (p : ℕ × FileDescriptor). p.1) q in
          record {
            number = ap pos number;
            small = ground arith;
            entry = ap (get_elem? fds) (sym number) ∙ g ∙ ap some entry;
            used = λ z. absurd (ground (arith, ap (λ (y : FileDescriptor). y.node) entry));
          }
    ]
  ]
]

pub Opened-entry :
    (n : ℕ) (fds : List FileDescriptor) (f : FileDescriptor)
    → n < max_fd
    → get_elem? fds n ≡ some f
    → f.node ≢ 0
    → open_entry (pos n) fds ≡ some (n, f)
unfolding open_entry
Opened-entry n fds f small e used =
    let s : leb max_fd n ≡ false = ground arith in
    let u : (f.node == 0) ≡ false = ground arith in rw (s, e, u) refl

pub get_elem?-set {ℓ} :
    {A : Type ℓ} (xs : List A) (n : ℕ) (a b : A)
    → get_elem? xs n ≡ some a
    → get_elem? (set xs n b) n ≡ some b
get_elem?-set [] n a b h = absurd (cc)
get_elem?-set (x ∷ xs) zero a b h = refl
get_elem?-set (x ∷ xs) (suc n) a b h = get_elem?-set xs n a b h

pub set-set {ℓ} : {A : Type ℓ} (xs : List A) (n : ℕ) (a b : A) → set (set xs n a) n b ≡ set xs n b
set-set [] n a b = refl
set-set (x ∷ xs) zero a b = refl
set-set (x ∷ xs) (suc n) a b = ap (λ l. x ∷ l) (set-set xs n a b)

pub set_same {ℓ} :
    {A : Type ℓ} (xs : List A) (n : ℕ) (a : A) → get_elem? xs n ≡ some a → set xs n a ≡ xs
set_same [] n a h = refl
set_same (x ∷ xs) zero a h = ap (λ y. y ∷ xs) (sym (eq_of_some h))
set_same (x ∷ xs) (suc n) a h = ap (λ l. x ∷ l) (set_same xs n a h)

-- The entry of an open descriptor after it is replaced.
pub entry-set :
    (fd : ℤ) (fds : List FileDescriptor) (n : ℕ) (f f' : FileDescriptor)
    → open_entry fd fds ≡ some (n, f)
    → f'.node ≡ f.node
    → open_entry fd (set fds n f') ≡ some (n, f')
entry-set fd fds n f f' e same =
    let o : Opened fd fds n f = entry-Opened fd fds n f e in
    ap (λ (k : ℤ). open_entry k (set fds n f')) (o.number)
    ∙ Opened-entry n (set fds n f') f' (o.small) (get_elem?-set fds n f f' (o.entry))
        (λ z. o.used (sym same ∙ z))

-- What a seek to `p` leaves.
abbrev pub Sought : {D : Type 0} → Driver D → ℤ → ℕ → Vfs D → Type 0
Sought v fd p t =
    (n : ℕ) × (f : FileDescriptor) × (open_entry fd t.fd_table ≡ some (n, f))
    × (f.offset ≡ p)
    × (p ≤ v.size f.node t.device)
    × (vfs_seek v fd (pos 0) 1 t ≡ (pos p, t))

current_target : (p size : ℕ) → seek_target 1 (pos 0) p size ≡ some (pos p)
unfolding seek_target
current_target p size = ground arith

pub seek-moved :
    {D : Type 0} (v : Driver D) (fd offset target : ℤ) (whence n : ℕ) (f : FileDescriptor)
    (s : Vfs D)
    → open_entry fd s.fd_table ≡ some (n, f)
    → seek_target whence offset f.offset (v.size f.node s.device) ≡ some target
    → within (v.size f.node s.device) target ≡ true
    → vfs_seek v fd offset whence s ≡ (target, set_fd n (record f { offset = pos_part target }) s)
unfolding vfs_seek
seek-moved v fd offset target whence n f s e q w =
    rw (e, vfs_seek) (rw (q, vfs_seek) (rw (w, vfs_seek) refl))

moved-Sought :
    {D : Type 0} (v : Driver D) (fd : ℤ) (n p : ℕ) (f : FileDescriptor) (s : Vfs D)
    → open_entry fd s.fd_table ≡ some (n, f)
    → p ≤ v.size f.node s.device
    → Sought v fd p (set_fd n (record f { offset = p }) s)
unfolding within
moved-Sought v fd n p f s e le =
    let f' : FileDescriptor = record f { offset = p } in
    let e' : open_entry fd (set s.fd_table n f') ≡ some (n, f') =
      entry-set fd s.fd_table n f f' e refl in
    let w : leb p (v.size f.node s.device) ≡ true = ground arith in
    (
      n,
      f',
      e',
      refl,
      le,
      seek-moved v fd (pos 0) (pos p) 1 n f' (set_fd n f' s) e'
            (current_target p (v.size f.node s.device)) w
          ∙ ap (λ (l : List FileDescriptor). (pos p, record s { fd_table = l }))
              (set-set s.fd_table n f' f'),
    )

abbrev Told : {D : Type 0} → Driver D → ℤ → Vfs D → ℤ × Vfs D → Type 0
Told v fd s (r, t) = ((r ≡ error) × (t ≡ s)) ⊎ ((p : ℕ) × (r ≡ pos p) × Sought v fd p t)

within-Told :
    {D : Type 0} (v : Driver D) (fd target : ℤ) (n : ℕ) (f : FileDescriptor) (s : Vfs D)
    → open_entry fd s.fd_table ≡ some (n, f)
    → within (v.size f.node s.device) target ≡ true
    → Told v fd s (target, set_fd n (record f { offset = pos_part target }) s)
unfolding within
within-Told v fd (pos p) n f s e w = inr (p, refl, moved-Sought v fd n p f s e (ground arith))
within-Told v fd (negsuc p) n f s e w = absurd (ground arith)

-- A seek that succeeds leaves the descriptor at the position that it returns, which is at most the
-- size of the file; asking for the position (SEEK_CUR by 0) then returns it again and changes
-- nothing. Every other seek returns -1 and changes nothing.
pub seek-tells :
    {D : Type 0} (v : Driver D) (fd offset : ℤ) (whence : ℕ) (s : Vfs D)
    → let (r, t) = vfs_seek v fd offset whence s in
      ((r ≡ error) × (t ≡ s)) ⊎ ((p : ℕ) × (r ≡ pos p) × Sought v fd p t)
unfolding vfs_seek
seek-tells v fd offset whence s = elim (Option-cases (open_entry fd s.fd_table)) [
  | inl e ↦ rw (e, vfs_seek) (inl (refl, refl))
  | inr ((n, f), e) ↦
      elim (Option-cases (seek_target whence offset f.offset (v.size f.node s.device))) [
        | inl q ↦ rw (e, vfs_seek) (rw (q, vfs_seek) (inl (refl, refl)))
        | inr (target, q) ↦ elim (Bool-cases (within (v.size f.node s.device) target)) [
          | inl w ↦
              subst (Told v fd s) (sym (seek-moved v fd offset target whence n f s e q w))
                (within-Told v fd target n f s e w)
          | inr w ↦ rw (e, vfs_seek) (rw (q, vfs_seek) (rw (w, vfs_seek) (inl (refl, refl))))
        ]
      ]
]
