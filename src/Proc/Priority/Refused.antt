-- ===== src/Proc/Priority/Refused.antt =====
-- setpriority with arguments out of range.
use tron_boss_os.Base.{
  ℕ, ◌≡◌, refl, sym, ◌∙◌, inl, inr, ◌⊎◌, Bool, true, false, ◌&&◌, arith, leb, if◌then◌else◌, ℤ, pos,
  negsuc, update_self,
}
use tron_boss_os.Links.{max_priority}
use tron_boss_os.Kernel.{Kernel, ptable_lock, ok}
use tron_boss_os.Kernel.Spinlock.{
  Free, Holds, acquire-free, acquired, acquired-Holds, released, release-held, holding,
}
use tron_boss_os.Proc.Priority.{setpriority, set_priority_checked, finish}

-- 0 <= n && n <= top
abbrev pub in_range : ℤ → ℕ → Bool
in_range (pos n) top = leb n top
in_range (negsuc n) top = false

checked-refused :
    (isholding : Bool) (pid n : ℤ)
    → (in_range pid 32767 && in_range n max_priority) ≡ false
    → set_priority_checked isholding pid n
      ≡ finish isholding (if in_range pid 32767 then negsuc 2 else negsuc 1)
unfolding set_priority_checked
checked-refused isholding (negsuc m) n h = refl
checked-refused isholding (pos m) (negsuc n) h = ground arith
checked-refused isholding (pos m) (pos n) h = ground arith

-- `setpriority` refuses a pid out of range with -2, and else a priority out of range with -3. The
-- processes and their lists are as before, and `ptable.lock` is held afterwards exactly if it was.
pub setpriority_refuses :
    (k : Kernel) (pid n : ℤ)
    → (in_range pid 32767 && in_range n max_priority) ≡ false
    → Free ptable_lock 0 k ⊎ Holds ptable_lock 0 k
    → (k' : Kernel) × (setpriority pid n k
        ≡ ok (if in_range pid 32767 then negsuc 2 else negsuc 1) k')
      × (k'.procs ≡ k.procs)
      × (k'.links ≡ k.links)
      × (k'.locks ptable_lock ≡ k.locks ptable_lock)
unfolding setpriority holding acquired released
setpriority_refuses k pid n bad (inl f) =
    let ka = acquired ptable_lock k in
    let h = acquired-Holds ptable_lock 0 k f in
    (
      released ptable_lock 0 ka,
      rw
          (
            f.unlocked,
            acquire-free ptable_lock k f.unlocked,
            checked-refused false pid n bad,
            release-held ptable_lock 0 ka h,
          )
          refl,
      refl,
      refl,
      update_self ka.locks ptable_lock false ∙ sym f.unlocked,
    )
setpriority_refuses k pid n bad (inr h) =
    (k, rw (h.locked, checked-refused true pid n bad) refl, refl, refl, refl)
