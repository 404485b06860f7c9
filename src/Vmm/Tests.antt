-- ===== src/Vmm/Tests.antt =====
-- Runs on the example's machine.
use operatingsystem.Common.{ℕ, ◌+◌, ◌%◌, ◌<◌, ◌≡◌, ◌≢◌, refl}
use operatingsystem.Common.{◌⊎◌, some, [], ◌∷◌}
use operatingsystem.Common.{true}
use operatingsystem.Pmm.{test_bit}
use operatingsystem.Vmm.{Vmm, address_of, create_address_space, map_page, unmap_page, translate}
use operatingsystem.Vmm.Walk.{large, walk, target, translate_lem}
use operatingsystem.Vmm.Tree.{Owner, IsTree}
use operatingsystem.Vmm.Leaf.{page_number}
use operatingsystem.Vmm.Keeps.{Keeps}
use operatingsystem.Vmm.Map.{map_page_lem}
use operatingsystem.Vmm.Unmap.{unmap_page_lem}
use operatingsystem.Vmm.Space.{NewSpace, create_address_space_lem}
use operatingsystem.Vmm.Example.{start, one_root, one_root-here, start-IsTree}

create_address_space_lem_example :
    NewSpace start one_root (create_address_space start)
    ⊎ ((create_address_space start ≡ (0, start))
        × ((q : ℕ) → q < start.pmm.total_pages → test_bit start.pmm.bitmap q ≡ true))
create_address_space_lem_example = create_address_space_lem start one_root start-IsTree

abbrev mapped : Vmm
mapped = map_page 0x1000 0x40_3123 0x9_8765 6 start

map_page_lem_example :
    ((owner' : Owner) × IsTree mapped owner'
      × Keeps start one_root mapped owner'
      × (translate 0x1000 0x40_3123 mapped ≡ address_of 0x9_8765 + 0x40_3123 % 4096)
      × ((x w : ℕ)
          → one_root x ≡ some []
          → page_number w ≢ page_number 0x40_3123
          → translate x w mapped ≡ translate x w start))
    ⊎ ((owner' : Owner) × IsTree mapped owner'
        × Keeps start one_root mapped owner'
        × ((x w : ℕ) → one_root x ≡ some [] → translate x w mapped ≡ translate x w start)
        × (((level e : ℕ) × (walk 3 0x1000 0x40_3123 start.memory ≡ large level e))
            ⊎ ((q : ℕ) → q < mapped.pmm.total_pages → test_bit mapped.pmm.bitmap q ≡ true)))
map_page_lem_example =
    map_page_lem start one_root 0x1000 0x40_3123 0x9_8765 6 start-IsTree one_root-here refl

unmap_page_lem_example :
    let after = unmap_page 0x1000 0x40_3123 start in
    ((owner' : Owner) × IsTree after owner'
      × (translate 0x1000 0x40_3123 after ≡ 0)
      × (after.flushed ≡ 0x40_3123 ∷ [])
      × ((x w : ℕ)
          → one_root x ≡ some []
          → page_number w ≢ page_number 0x40_3123
          → translate x w after ≡ translate x w start))
    ⊎ ((after ≡ start)
        × ((translate 0x1000 0x40_3123 start ≡ 0)
            ⊎ ((level e : ℕ) × (walk 3 0x1000 0x40_3123 start.memory ≡ large level e))))
unmap_page_lem_example = unmap_page_lem start one_root 0x1000 0x40_3123 start-IsTree one_root-here

translate_lem_example :
    translate 0x1000 0x40_3123 mapped ≡ target 0x40_3123 (walk 3 0x1000 0x40_3123 mapped.memory)
translate_lem_example = translate_lem 0x1000 0x40_3123 mapped
