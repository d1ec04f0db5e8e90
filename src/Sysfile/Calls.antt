-- ===== src/Sysfile/Calls.antt =====
-- dup and close keep the reference counts of the file table.
use tron_boss_os.Base.{
  ℕ, zero, suc, ◌-◌, ◌≤◌, ◌<◌, ◌≡◌, ◌≢◌, refl, sym, ap, ◌∙◌, inl, inr, ◌⊎◌, Bool, true, ◌||◌,
  Option, none, some, List, arith, ◌==◌, leb, if◌then◌else◌, pos, negsuc, eq-cases, Bool-cases,
  update, has, erase,
}
use tron_boss_os.Links.{Ptr, null}
use tron_boss_os.Strings.{Memory}
use tron_boss_os.File.{Ftable, Closing, nothing, closing}
use tron_boss_os.File.Refs.{IsCounted, filedup-IsCounted, fileclose-IsCounted}
use tron_boss_os.Syscall.{argint}
use tron_boss_os.Sysfile.{
  nofile, Ofile, check_fd, argfd, fdalloc_loop, fdalloc, Left, dup_at, dup, sys_dup, close,
  sys_close,
}
use tron_boss_os.Sysfile.Holders.{
  holders, has-holders, IsCounted-fdalloc, count-erase-holders, has-count,
}

-- What fdalloc does: the lowest descriptor that is free, or -1
fdalloc_loop_lem :
    (n : ℕ) (f : Ptr) (o : Ofile)
    → n ≤ nofile
    → ((fd : ℕ) × (fdalloc_loop n f o ≡ some (fd, update o fd f))
        × (fd < nofile)
        × (o fd ≡ null)
        × ((i : ℕ) → nofile - n ≤ i → i < fd → o i ≢ null))
      ⊎ ((fdalloc_loop n f o ≡ none) × ((i : ℕ) → nofile - n ≤ i → i < nofile → o i ≢ null))
unfolding fdalloc_loop
fdalloc_loop_lem zero f o le = inr (refl, λ i lo hi. absurd (omega arith))
fdalloc_loop_lem (suc n) f o le =
    let fd0 = nofile - suc n in
    elim (eq-cases (o fd0) null) [
      | inl (e, b) ↦ inl (fd0, rw b refl, omega arith, e, λ i lo hi. absurd (omega arith))
      | inr (ne, b) ↦
          let first : (hi : ℕ)
              → ((i : ℕ) → nofile - n ≤ i → i < hi → o i ≢ null)
              → (i : ℕ) → fd0 ≤ i
              → i < hi
              → o i ≢ null =
            λ hi all i lo lt. elim (eq-cases i fd0) [
              | inl (e, _) ↦ λ z. ne (sym (ap o e) ∙ z)
              | inr (other, _) ↦ all i (omega arith) lt
            ] in
          elim (fdalloc_loop_lem n f o (omega arith)) [
            | inl (fd, eq, lt, e, all) ↦ inl (fd, rw b eq, lt, e, first fd all)
            | inr (eq, all) ↦ inr (rw b eq, first nofile all)
          ]
    ]

-- The argument cannot be fetched, or it is no descriptor of the process.
abbrev pub IsBadFd : Ofile → Option ℕ → Type 0
IsBadFd o r = (r ≡ none) ⊎ ((fd : ℕ) × (r ≡ some fd) × ((nofile ≤ fd) ⊎ (o fd ≡ null)))

-- The argument is a descriptor of the process.
abbrev pub IsFd : Ofile → Option ℕ → ℕ → Type 0
IsFd o r fd = (r ≡ some fd) × (fd < nofile) × (o fd ≢ null)

no_descriptor :
    (fd : ℕ) (f : Ptr) → (leb nofile fd || (f == null)) ≡ true → (nofile ≤ fd) ⊎ (f ≡ null)
no_descriptor fd f b = elim (eq-cases f null) [
  | inl (e, _) ↦ inr e
  | inr (_, n) ↦ inl (ground arith)
]

check_fd-cases :
    (o : Ofile) (r : Option ℕ)
    → (IsBadFd o r × (check_fd o r ≡ none))
      ⊎ ((fd : ℕ) × IsFd o r fd × (check_fd o r ≡ some (fd, o fd)))
check_fd-cases o none = inl (inl refl, refl)
check_fd-cases o (some fd) = elim (Bool-cases (leb nofile fd || (o fd == null))) [
  | inl b ↦ inl (inr (fd, refl, no_descriptor fd (o fd) b), rw b refl)
  | inr b ↦ inr (fd, (refl, ground arith, λ z. absurd (ground arith)), rw b refl)
]

-- The end of sys_dup, by what filedup does
abbrev dup_out : ℕ → Ofile → Option (Ptr × Ftable) → Option Left
dup_out fd o' none = none
dup_out fd o' (some (f, t')) = some (pos fd, o', t')

-- `sys_dup` keeps the counts right and does not panic: it returns the lowest descriptor that is free,
-- which then has the file of the argument and is one holder more, or -1, with nothing changed, if the
-- argument is no descriptor of the process or all its descriptors are in use.
pub dup-IsCounted :
    (sz : ℕ) (mem : Memory) (esp : ℕ) (o : Ofile) (t : Ftable) (others : List Ptr)
    → IsCounted t (holders o others)
    → ((sys_dup sz mem esp o t ≡ some (negsuc 0, o, t))
        × (IsBadFd o (argint sz mem esp 0) ⊎ ((i : ℕ) → i < nofile → o i ≢ null)))
      ⊎ ((fd : ℕ) × (new : ℕ) × (t' : Ftable) × IsFd o (argint sz mem esp 0) fd
          × (sys_dup sz mem esp o t ≡ some (pos new, update o new (o fd), t'))
          × (new < nofile)
          × (o new ≡ null)
          × ((i : ℕ) → i < new → o i ≢ null)
          × IsCounted t' (holders (update o new (o fd)) others))
unfolding sys_dup argfd fdalloc
dup-IsCounted sz mem esp o t others c = elim (check_fd-cases o (argint sz mem esp 0)) [
  | inl (bad, e) ↦ inl (ap (λ (a : Option (ℕ × Ptr)). dup a o t) e, inl bad)
  | inr (fd, (r, lt, ne), e) ↦
      let f = o fd in
      let start = ap (λ (a : Option (ℕ × Ptr)). dup a o t) e in
      elim (fdalloc_loop_lem nofile f o (omega arith)) [
        | inl (new, eq, lt', free, all) ↦
            let (t', e', c') =
              filedup-IsCounted t f (holders o others) c (has-holders o others fd lt ne) in
            inr (
              fd,
              new,
              t',
              (r, lt, ne),
              start
                  ∙ ap (λ (a : Option (ℕ × Ofile)). dup_at f a o t) eq
                  ∙ ap (dup_out new (update o new f)) e',
              lt',
              free,
              λ i hi. all i (omega arith) hi,
              IsCounted-fdalloc t' o others new f lt' free ne c',
            )
        | inr (eq, all) ↦ inl (
          start ∙ ap (λ (a : Option (ℕ × Ofile)). dup_at f a o t) eq,
          inr (λ i hi. all i (omega arith) hi),
        )
      ]
]

-- The end of sys_close, by what fileclose does
abbrev close_out : ℕ → Ofile → Option (Closing × Ftable) → Option (Closing × Left)
close_out fd o none = none
close_out fd o (some (c, t')) = some (c, (pos 0, update o fd null, t'))

-- `sys_close` keeps the counts right and does not panic: it clears the descriptor of the argument,
-- and closes what is behind its file exactly if no descriptor has the file any more; or it returns
-- -1, with nothing changed, if the argument is no descriptor of the process.
pub close-IsCounted :
    (sz : ℕ) (mem : Memory) (esp : ℕ) (o : Ofile) (t : Ftable) (others : List Ptr)
    → IsCounted t (holders o others)
    → ((sys_close sz mem esp o t ≡ some (nothing, (negsuc 0, o, t)))
        × IsBadFd o (argint sz mem esp 0))
      ⊎ ((fd : ℕ) × (t' : Ftable) × IsFd o (argint sz mem esp 0) fd
          × (sys_close sz mem esp o t
              ≡ some (
                if has (o fd) (holders (update o fd null) others)
                    then nothing
                    else closing (t (o fd)).type (t (o fd)),
                (pos 0, update o fd null, t'),
              ))
          × IsCounted t' (holders (update o fd null) others))
unfolding sys_close argfd
close-IsCounted sz mem esp o t others c = elim (check_fd-cases o (argint sz mem esp 0)) [
  | inl (bad, e) ↦ inl (ap (λ (a : Option (ℕ × Ptr)). close a o t) e, bad)
  | inr (fd, (r, lt, ne), e) ↦
      let f = o fd in
      let rest = holders (update o fd null) others in
      let left = λ (g : Ptr). count-erase-holders o others fd g lt ne in
      let (t', e', c', _, _) =
        fileclose-IsCounted t f (holders o others) c (has-holders o others fd lt ne) in
      inr (
        fd,
        t',
        (r, lt, ne),
        ap (λ (a : Option (ℕ × Ptr)). close a o t) e
            ∙ ap (close_out fd o) e'
            ∙ ap
                (λ (b : Bool).
                  close_out fd o (some (if b then nothing else closing (t f).type (t f), t')))
                (has-count f (erase f (holders o others)) rest (left f)),
        λ g. c' g ∙ left g,
      )
]
