-- ===== src/Source/Tests.antt =====
-- A slot that is reserved from a concrete ring.
use inel.Base.{[]}
use inel.Completion.Examples.{linux, V}
use inel.Ring.Examples.{accepting, idle, idle-Lending}
use inel.Source.{reserve}
use inel.Source.Owned.{Reserves, reserve-Reserves}

reserve-Reserves_example : Reserves linux accepting V [] [] [] idle (reserve linux accepting V idle)
reserve-Reserves_example = reserve-Reserves linux accepting V {r = idle} idle-Lending
