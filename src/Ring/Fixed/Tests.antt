-- ===== src/Ring/Fixed/Tests.antt =====
-- A buffer that is registered with a concrete ring.
use inel.Base.{[]}
use inel.Cancellation.{BoxedSlice}
use inel.Completion.Examples.{linux, V}
use inel.Ring.Examples.{accepting, idle, idle-Lending}
use inel.Ring.Fixed.{Settles, register, register-Settles}

abbrev page : BoxedSlice
page = record { address = 4096; length = 512 }

register-Settles_example :
    Settles linux accepting V idle [] [] [] page (register linux accepting V idle page)
register-Settles_example = register-Settles linux accepting V {r = idle} page idle-Lending
