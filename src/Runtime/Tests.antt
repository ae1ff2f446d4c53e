-- ===== src/Runtime/Tests.antt =====
-- A thread whose ring is idle, and initialised again.
use inel.Base.{◌≡◌, refl, ◌⊎◌, some, [], done, panic, reactor_running, arith}
use inel.Completion.Examples.{linux, V}
use inel.Ring.{Ring}
use inel.Ring.Slots.{Lending}
use inel.Ring.Examples.{accepting, idle, idle-Lending}
use inel.Ring.Options.{default}
use inel.Runtime.{init}
use inel.Runtime.Init.{Unused, init-Replaces}

init-Replaces_example :
    (Unused linux accepting V idle [] [] []
      × ((r : Ring linux accepting V) × (init linux accepting V (some idle) default ≡ done (some r))
          × Lending linux accepting V r [] [] []))
    ⊎ ((¬ Unused linux accepting V idle [] [] [])
        × (init linux accepting V (some idle) default ≡ panic reactor_running))
init-Replaces_example =
    init-Replaces linux accepting V default idle-Lending
      (record {
        fixed_buffers = omega arith;
        buffer_groups = omega arith;
        manual_direct_files = omega arith;
      })
      refl (λ g v. (v, refl))
