-- ===== src/Kernel/Boot/UserSpace.antt =====
-- The address space of the demo program when the kernel starts.
use operatingsystem.Common.{ℕ, ◌+◌, ◌*◌, ◌%◌, ◌≤◌, ◌<◌, ◌≡◌, ◌≢◌, sym, ap, ◌∙◌, ◌⊎◌}
use operatingsystem.Vmm.{Vmm, translate}
use operatingsystem.Vmm.Walk.{index, walk}
use operatingsystem.Vmm.Leaf.{page_number}
use operatingsystem.UserMode.{user_stack_address}
use operatingsystem.UserMode.Pages.{Elsewhere, same_target}

-- The address space `root` of the demo program, next to the kernel's, which has the root `cr3`: the
-- entry point and the stack are mapped, the stack to a page outside the kernel's image and the
-- stacks of the threads.
pub record UserSpace (program_phys : ℕ) (v : Vmm) (cr3 root entry : ℕ) : Type 0 where
  pub entry_point : translate root entry v ≡ program_phys
  pub stack_page : ℕ
  pub apart : (13 ≤ stack_page) × ((stack_page < 256) ⊎ (768 ≤ stack_page))
  pub stack :
      (w : ℕ)
      → page_number w ≡ page_number user_stack_address
      → translate root w v ≡ stack_page * 4096 + w % 4096
  pub kernel : (w : ℕ) → Elsewhere w → index 4 w ≡ 0 → translate root w v ≡ translate cr3 w v
  pub nothing_else : (w : ℕ) → Elsewhere w → index 4 w ≢ 0 → translate root w v ≡ 0

-- It is told by the memory.
pub UserSpace-ext :
    {program_phys cr3 root root' entry : ℕ} {v : Vmm} (v' : Vmm)
    → root' ≡ root
    → UserSpace program_phys v cr3 root entry
    → v'.memory ≡ v.memory
    → UserSpace program_phys v' cr3 root' entry
UserSpace-ext {program_phys} {cr3} {root} {root'} {entry} {v} v' r u m = rw r (record {
  entry_point = same root entry ∙ u.entry_point;
  stack_page = u.stack_page;
  apart = u.apart;
  stack = λ w on. same root w ∙ u.stack w on;
  kernel = λ w off z. same root w ∙ u.kernel w off z ∙ sym (same cr3 w);
  nothing_else = λ w off ne. same root w ∙ u.nothing_else w off ne;
})
  where
    same : (x w : ℕ) → translate x w v' ≡ translate x w v
    same x w = same_target v v' x x w (ap (walk 3 x w) m)
