-- ===== src/Kernel/Spinlock.antt =====
-- spinlock.c as one CPU sees it: `locked` with `cpu` this CPU is an entry of `locks`. A lock that
-- another CPU holds is waited for, so `acquire` goes on from the state in which it is free.
use tron_boss_os.Base.{
  ℕ, zero, suc, ◌<◌, ◌≡◌, refl, sym, ap, ◌∙◌, inl, inr, eq-cases, update_other, Bool, true, false,
  ◌&&◌, arith, ◌==◌, if◌then◌else◌, update, update_self,
}
use tron_boss_os.Kernel.{Kernel, LockId, M, ok, panicked, ◌>>=◌, ◌>>◌, panic}

unfoldable pub initlock : LockId → M (Unit {0})
initlock l k = ok tt (record k { locks = update k.locks l false })

unfoldable pub holding : LockId → M Bool
holding l k = ok (k.locks l) k

unfoldable pub pushcli : M (Unit {0})
pushcli k = ok tt (record k {
  cpu = record {
    ncli = suc k.cpu.ncli;
    intena = if k.cpu.ncli == 0 then k.cpu.interrupts else k.cpu.intena;
    interrupts = false;
  };
})

-- `--cpu->ncli < 0`, then `sti` at depth 0
unfoldable pub popcli_depth : ℕ → M (Unit {0})
popcli_depth zero k = panicked "popcli"
popcli_depth (suc n) k = ok tt (record k {
  cpu = record { ncli = n; intena = k.cpu.intena; interrupts = (n == 0) && k.cpu.intena };
})

unfoldable pub popcli : M (Unit {0})
unfolding popcli_depth
popcli k = if k.cpu.interrupts then panicked "popcli - interruptible" else popcli_depth k.cpu.ncli k

unfoldable pub acquire : LockId → M (Unit {0})
unfolding pushcli holding
acquire l = do
  pushcli
  held ← holding l
  if held then panic "acquire" else λ k. ok tt (record k { locks = update k.locks l true })

unfoldable pub release : LockId → M (Unit {0})
unfolding popcli holding
release l = do
  held ← holding l
  if held
      then (do (λ k. ok tt (record k { locks = update k.locks l false })); popcli)
      else panic "release"

-- The CPU holds the lock `l`, and `n` more sections with interrupts off are open around it.
pub record Holds (l : LockId) (n : ℕ) (k : Kernel) : Type 0 where
  pub locked : k.locks l ≡ true
  pub depth : k.cpu.ncli ≡ suc n
  pub quiet : k.cpu.interrupts ≡ false

-- The lock is free, and interrupts are off if a section is open.
pub record Free (l : LockId) (n : ℕ) (k : Kernel) : Type 0 where
  pub unlocked : k.locks l ≡ false
  pub depth : k.cpu.ncli ≡ n

-- What `acquire` and `release` leave, where they do not panic.
unfoldable pub acquired : LockId → Kernel → Kernel
acquired l k = record k {
  cpu = record {
    ncli = suc k.cpu.ncli;
    intena = if k.cpu.ncli == 0 then k.cpu.interrupts else k.cpu.intena;
    interrupts = false;
  };
  locks = update k.locks l true;
}

unfoldable pub released : LockId → ℕ → Kernel → Kernel
released l n k = record k {
  cpu = record { ncli = n; intena = k.cpu.intena; interrupts = (n == 0) && k.cpu.intena };
  locks = update k.locks l false;
}

pub acquire-free :
    (l : LockId) (k : Kernel) → k.locks l ≡ false → acquire l k ≡ ok tt (acquired l k)
unfolding acquire acquired
acquire-free l k free = ground arith

pub acquire-held : (l : LockId) (k : Kernel) → k.locks l ≡ true → acquire l k ≡ panicked "acquire"
unfolding acquire
acquire-held l k held = ground arith

pub acquired-Holds : (l : LockId) (n : ℕ) (k : Kernel) → Free l n k → Holds l n (acquired l k)
unfolding acquired
acquired-Holds l n k f = record {
  locked = update_self k.locks l true;
  depth = ap suc f.depth;
  quiet = refl;
}

pub release-held :
    (l : LockId) (n : ℕ) (k : Kernel) → Holds l n k → release l k ≡ ok tt (released l n k)
unfolding release released
release-held l n k h = ground (arith, h.locked, h.depth, h.quiet)

pub released-Free : (l : LockId) (n : ℕ) (k : Kernel) → Free l n (released l n k)
unfolding released
released-Free l n k = record { unlocked = update_self k.locks l false; depth = refl }

pub release-free : (l : LockId) (k : Kernel) → k.locks l ≡ false → release l k ≡ panicked "release"
unfolding release
release-free l k free = ground arith

-- A section that is opened and closed again leaves this CPU as it was, its interrupts on or off
-- included, if interrupts are off wherever a section is open. Nothing panics.
pub release-acquire :
    (l : LockId) (k : Kernel)
    → k.locks l ≡ false
    → (0 < k.cpu.ncli → k.cpu.interrupts ≡ false)
    → (k' : Kernel) × ((acquire l >> release l) k ≡ ok tt k')
      × (k'.cpu.ncli ≡ k.cpu.ncli)
      × (k'.cpu.interrupts ≡ k.cpu.interrupts)
      × ((m : LockId) → k'.locks m ≡ k.locks m)
      × (k'.procs ≡ k.procs)
      × (k'.links ≡ k.links)
unfolding acquired released
release-acquire l k free off = (
  released l k.cpu.ncli (acquired l k),
  rw (acquire-free l k free) (
      release-held l k.cpu.ncli _
        (acquired-Holds l k.cpu.ncli k (record { unlocked = free; depth = refl }))),
  refl,
  ground (arith, off),
  (λ m. elim (eq-cases m l) [
    | inl (e, t) ↦ rw (e, update_self (update k.locks l true) l false) (sym free)
    | inr (e, t) ↦ update_other _ l false m e ∙ update_other k.locks l true m e
  ]),
  refl,
  refl,
)
