-- ===== src/Links.antt =====
-- The state lists of proc.c: `struct StateLists`, the `next` fields of the processes, and the
-- list routines. A `struct proc *` is a number: 0 is NULL, and slot i of `ptable.proc` is i + 1.
-- A `struct proc **` is the position of the list's head in `struct StateLists`.
-- A walk along `next` takes `loop_fuel` rounds at most; `none` says that they did not suffice.
pub mod Chain
pub mod Remove
pub mod Insert
use mathlib.Core.Option
use tron_boss_os.Base.{
  ℕ, zero, suc, ◌+◌, ◌≡◌, Bool, true, false, ◌||◌, Option, none, some, ◌==◌, if◌then◌else◌, ℤ, pos,
  negsuc, update,
}

abbrev pub Ptr : Type 0
Ptr = ℕ

abbrev pub null : Ptr
null = 0

-- NPROC of param.h
abbrev pub nproc : ℕ
nproc = 64

-- The greatest priority, MAX of proc.c: the list `ready` has MAX + 1 heads.
abbrev pub max_priority : ℕ
max_priority = 5

abbrev pub loop_fuel : ℕ
loop_fuel = 65

abbrev pub ListId : Type 0
ListId = ℕ

abbrev pub ready : ℕ → ListId
ready i = i

abbrev pub free : ListId
free = 6

abbrev pub sleep : ListId
sleep = 7

abbrev pub zombie : ListId
zombie = 8

abbrev pub running : ListId
running = 9

abbrev pub embryo : ListId
embryo = 10

-- `next` of each process, and the head of each list.
pub record Links : Type 0 where
  pub next : Ptr → Ptr
  pub heads : ListId → Ptr

unfoldable pub add_to_front_of_list : ListId → Ptr → Links → Links
add_to_front_of_list l p h =
    if p == null
    then h
    else record { next = update h.next p (h.heads l); heads = update h.heads l p }

-- The second argument is overwritten at once, as in the source.
unfoldable pub remove_from_front : ListId → Ptr → Links → ℤ × Links
remove_from_front l _ h =
    let p = h.heads l in
    if p == null
    then (negsuc 0, h)
    else (pos 0, record { next = update h.next p null; heads = update h.heads l (h.next p) })

-- `while (current)` of `removefromlist`
unfoldable pub unlink_loop : ℕ → (previous current p : Ptr) → Links → Option (ℤ × Links)
unlink_loop zero previous current p h = none
unlink_loop (suc fuel) previous current p h = elim (current == null) [
  | true ↦ some (negsuc 0, h)
  | false ↦ elim (current == p) [
    | true ↦ some (pos 0, record h { next = update (update h.next previous (h.next p)) p null })
    | false ↦ unlink_loop fuel current (h.next current) p h
  ]
]

unfoldable pub remove_from_list : ListId → Ptr → Links → Option (ℤ × Links)
remove_from_list l p h =
    if (p == null) || (h.heads l == null)
    then some (negsuc 0, h)
    else if h.heads l == p
    then some (
      pos 0,
      record { next = update h.next p null; heads = update h.heads l (h.next (h.heads l)) },
    )
    else unlink_loop loop_fuel (h.heads l) (h.next (h.heads l)) p h

-- `while (current->next)`: the walk to the last process of a list
unfoldable pub last_loop : ℕ → (current : Ptr) → Links → Option Ptr
last_loop zero current h = none
last_loop (suc fuel) current h = elim (h.next current == null) [
  | true ↦ some current
  | false ↦ last_loop fuel (h.next current) h
]

unfoldable pub add_to_ready_priority_list : ListId → Ptr → Links → Option (ℤ × Links)
add_to_ready_priority_list l p h =
    if p == null
    then some (negsuc 0, h)
    else if h.heads l == null
    then some (pos 0, record { next = update h.next p null; heads = update h.heads l p })
    else Option.map
        (λ (last : Ptr). (pos 0, record h { next = update (update h.next last p) p null }))
        (last_loop loop_fuel (h.heads l) h)
