-- ===== src/Examples/Memory.antt =====
-- The page allocator, on the memory behind a kernel that ends at 0x80110000.
use tron_boss_os.Base.{◌≡◌, refl, true, false, [], ◌∷◌, arith, some}
use tron_boss_os.Links.{Ptr}
use tron_boss_os.Kalloc.{Kmem, ◌>>=◌, kfree, kalloc}
use tron_boss_os.Kalloc.Pages.{IsFree, kalloc-kfree}

abbrev end_of_kernel : Ptr
end_of_kernel = 0x80110000

abbrev first_page : Ptr
first_page = 0x80111000

abbrev second_page : Ptr
second_page = 0x80112000

-- One page is free.
abbrev memory : Kmem
memory = record { next = λ _. 0; freelist = first_page; use_lock = true; locked = false }

memory-IsFree : IsFree memory (first_page ∷ [])
memory-IsFree = record { chain = (refl, (omega arith), refl); distinct = (refl, tt); idle = refl }

kalloc-kfree_example :
    (m' : Kmem) × ((kfree end_of_kernel second_page memory >>= kalloc) ≡ some (second_page, m'))
    × IsFree m' (first_page ∷ [])
kalloc-kfree_example =
    kalloc-kfree end_of_kernel second_page memory refl (omega arith) refl memory-IsFree

abbrev no_memory : Kmem
no_memory = record { next = λ _. 0; freelist = 0; use_lock = false; locked = false }
