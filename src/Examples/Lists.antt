-- ===== src/Examples/Lists.antt =====
-- The list routines, the time budget and the lock, each on a concrete state.
use tron_boss_os.Base.{
  ℕ, ◌-◌, ◌≡◌, refl, true, false, [], ◌∷◌, ◌++◌, some, pos, arith, update, has, erase,
}
use tron_boss_os.Links
use tron_boss_os.Links.{Links, remove_from_list, add_to_front_of_list, add_to_ready_priority_list}
use tron_boss_os.Links.Chain.{IsLists}
use tron_boss_os.Links.Remove.{remove_from_list-IsLists}
use tron_boss_os.Links.Insert.{add_to_front_of_list-IsLists, add_to_ready_priority_list-IsLists}
use tron_boss_os.Kernel.{Proc, runnable, uint_mod}
use tron_boss_os.Table.{View}
use tron_boss_os.Proc.{charge_budget}
use tron_boss_os.Proc.Budget.{charge_budget_overrun}
use tron_boss_os.Proc.Create.Init.{slots_down, free_only, empty-IsLists, free_only-missing}
use tron_boss_os.Examples.{no_links, process, family_links, family_view, family-Table, parent}

abbrev ready_child : Proc
ready_child = process runnable 2 64 0

abbrev h : Links
h = family_links ready_child

abbrev v : View
v = family_view ready_child

lists : IsLists h v
lists = (family-Table ready_child (omega arith)).lists

has-40 : has 40 (v Links.free) ≡ true
unfolding family_view update slots_down
has-40 = refl

remove_from_list-IsLists_example :
    (g : Links) × (remove_from_list Links.free 40 h ≡ some (pos 0, g))
    × IsLists g (update v Links.free (erase 40 (v Links.free)))
remove_from_list-IsLists_example = remove_from_list-IsLists lists Links.free 40 has-40

empty : IsLists no_links (free_only 0)
empty = empty-IsLists no_links (λ l. refl)

abbrev with_40 : View
with_40 = update (free_only 0) 2 (40 ∷ free_only 0 2)

IsLists-with_40 : IsLists (add_to_front_of_list 2 40 no_links) with_40
IsLists-with_40 =
    add_to_front_of_list-IsLists empty 2 40 (omega arith, omega arith)
      (free_only-missing 0 40 (omega arith))

no_41 : (m : ℕ) → has 41 (with_40 m) ≡ false
unfolding update slots_down
no_41 m = ground arith

add_to_ready_priority_list-IsLists_example :
    (g : Links) × (add_to_ready_priority_list 2 41 (add_to_front_of_list 2 40 no_links)
      ≡ some (pos 0, g))
    × IsLists g (update with_40 2 (with_40 2 ++ 41 ∷ []))
add_to_ready_priority_list-IsLists_example =
    add_to_ready_priority_list-IsLists IsLists-with_40 2 41 (omega arith, omega arith) no_41

charge_budget_overrun_example :
    ((charge_budget 301 parent).priority ≡ 0) × ((charge_budget 301 parent).budget ≡ uint_mod - 1)
charge_budget_overrun_example = charge_budget_overrun 301 parent (omega arith) (omega arith)
