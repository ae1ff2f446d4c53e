-- ===== src/Ring/Examples.antt =====
-- Concrete rings: the kernel's queue is the list of the completions that are ready.
use inel.Base.{refl, false, some, List, [], arith}
use inel.RingResult.{Cqe}
use inel.IoUring.{IoUring, Entry, nop}
use inel.Register
use inel.Register.{SlotRegister}
use inel.Register.Lending.{Lent, new-Lent}
use inel.Completion.Examples.{linux, V, fresh, fresh-Inv, one, one-Inv}
use inel.Ring.{Ring}
use inel.Ring.Counts.{Counts}
use inel.Ring.Slots.{Lending}

abbrev pub accepting : IoUring
accepting = record {
  Instance = List Cqe;
  build = λ n. some [];
  push = λ e u. some u;
  submit_and_wait = λ n u. some u;
  completion = λ u. (u, []);
  register = λ r u. some u;
}

abbrev pub slots : SlotRegister
slots = record { vacant = []; len = 0; size = 16 }

pub slots-Lent : Lent slots []
unfolding Register.new
slots-Lent = new-Lent 16 (omega arith)

abbrev pub idle : Ring linux accepting V
idle = record {
  ring = [];
  active = 0;
  detached = 0;
  canceled = 0;
  completions = fresh;
  direct_files = slots;
  fixed_buffers = slots;
  buffer_groups = slots;
}

pub idle-Counts : Counts linux accepting V idle
idle-Counts = record {
  valid = fresh-Inv;
  active = refl;
  canceled = omega arith;
  detached = omega arith;
  small = omega arith;
}

pub idle-Lending : Lending linux accepting V idle [] [] []
idle-Lending = record {
  counts = idle-Counts;
  direct_files = slots-Lent;
  fixed_buffers = slots-Lent;
  buffer_groups = slots-Lent;
}

-- Task 5 waits for an entry; another entry is detached.
abbrev pub busy : Ring linux accepting V
busy = record idle { active = 1; detached = 1; completions = one }

pub busy-Counts : Counts linux accepting V busy
busy-Counts = record {
  valid = one-Inv;
  active = refl;
  canceled = omega arith;
  detached = omega arith;
  small = omega arith;
}

abbrev pub entry : Entry
entry = record { opcode = nop; user_data = 0; linked = false }
