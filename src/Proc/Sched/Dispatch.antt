-- ===== src/Proc/Sched/Dispatch.antt =====
-- What the scheduler does to the process that it picks, and which one that is.
use tron_boss_os.Base.{
  ℕ, suc, ◌≤◌, ◌≡◌, refl, true, List, ◌∷◌, arith, ◌==◌, if◌then◌else◌, update, update_self,
  update-update, has,
}
use tron_boss_os.Links
use tron_boss_os.Links.{Ptr, null, nproc, max_priority, ListId, Links}
use tron_boss_os.Kernel.{Proc, Kernel, runnable, running, switchuvm, ok}
use tron_boss_os.Table.{Table, View, place, take_off_front, put_front, Table-update_out}
use tron_boss_os.Proc.Switch.{assert_state-passes}
use tron_boss_os.Proc.Sched.{dispatch}

pub is_ready :
    (r : Proc) (i : ℕ)
    → i ≤ max_priority
    → place r ≡ Links.ready i
    → (r.state ≡ runnable) × (r.priority ≡ i)
is_ready r i le at = (ground arith, ground arith)

abbrev pub dispatched : ℕ → Proc → Proc
dispatched ticks r = record r { state = running; cpu_ticks_in = ticks }

-- The index at which the scheduler's loop goes on.
abbrev pub resume_at : ℕ → ℕ
resume_at i = if i == max_priority then suc max_priority else 0

pub dispatch-Table :
    (k : Kernel) {v : View} (i : ℕ) (p : Ptr) (xs : List Ptr)
    → Table null k.procs k.links v
    → i ≤ max_priority
    → v (Links.ready i) ≡ p ∷ xs
    → (k' : Kernel) × (dispatch i p k ≡ ok (resume_at i) k')
      × (k'.proc ≡ p)
      × (k'.procs ≡ update k.procs p (dispatched k.ticks (k.procs p)))
      × (let w = update v (Links.ready i) xs in
          Table null k'.procs k'.links (update w Links.running (p ∷ w Links.running)))
      × (k'.cpu ≡ k.cpu)
      × (k'.locks ≡ k.locks)
unfolding dispatch
dispatch-Table k {v} i p xs t le e =
    let here : has p (v (Links.ready i)) ≡ true = rw e (ground arith) in
    let s = t.lists.slots (Links.ready i) p here in
    let (st, pr) = is_ready (k.procs p) i le (t.home (Links.ready i) p here) in
    let (g, e1, at, t1) = take_off_front t (Links.ready i) p p xs e in
    let r1 : Proc = record (k.procs p) { state = running } in
    let r : Proc = dispatched k.ticks (k.procs p) in
    let k1 : Kernel = record k { links = g; proc = p; calls = switchuvm p ∷ k.calls } in
    let t2 =
      put_front (Table-update_out t1 r (t.capped p s)) Links.running s
        (rw (update_self k.procs p r) refl) in
    (
      record k1 {
        procs = update k.procs p r;
        links = Links.add_to_front_of_list Links.running p g;
      },
      ground (
        arith,
        pr,
        e1,
        assert_state-passes p runnable k1 st,
        update_self k.procs p r1,
        update-update k.procs p r1 r,
      ),
      refl,
      refl,
      t2,
      refl,
      refl,
    )
