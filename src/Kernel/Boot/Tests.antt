-- ===== src/Kernel/Boot/Tests.antt =====
-- The start of the kernel on the machine of the example, with the keyboard's buffer empty at the
-- third look, and four interrupts afterwards: the timer, the keyboard, and the timer twice.
use operatingsystem.Common.{◌≡◌, refl, List, [], ◌∷◌, some}
use operatingsystem.Interrupts.Dispatch.{Irq, run_irqs}
use operatingsystem.Kernel.Start.{System, launch, take_irqs, enable_interrupts, set_up_memory}
use operatingsystem.Interrupts.{irq_handler}
use operatingsystem.Scheduler.{tick, tick_first, dequeue, start}
use operatingsystem.Kernel.Boot.Example.{devices, loaded}
use operatingsystem.Kernel.Boot.Pages.{TakenBelow, set_up_memory-TakenBelow}

-- The keyboard's interrupt comes at once.
abbrev early : List Irq
early = record { number = 33; status = 1; code = 30 } ∷ []

abbrev four : List Irq
four =
    record { number = 32; status = 0; code = 0 }
    ∷ record { number = 33; status = 1; code = 30 }
    ∷ record { number = 32; status = 0; code = 0 }
    ∷ record { number = 32; status = 0; code = 0 }
    ∷ []

set_up_memory-TakenBelow_example : TakenBelow 1 (set_up_memory devices loaded).pmm
set_up_memory-TakenBelow_example = set_up_memory-TakenBelow devices loaded

-- If the timer's interrupt comes first, its tick makes the first task the running one without loading
-- its context, and `scheduler_start` returns at once: no context is ever switched to.
abbrev one_ready : System
one_ready = record loaded { ready_head = some 0; ready_tail = some 0 }

early_timer :
    ((launch (record { number = 32; status = 0; code = 0 } ∷ []) one_ready).current_task ≡ some 0)
    × ((launch (record { number = 32; status = 0; code = 0 } ∷ []) one_ready).switches ≡ [])
unfolding launch take_irqs enable_interrupts run_irqs irq_handler tick tick_first dequeue start
early_timer = (refl, refl)
