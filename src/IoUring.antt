-- ===== src/IoUring.antt =====
-- The crate `io_uring`, which the repository only uses: submission entries, and the ring itself as
-- a parameter.
use inel.Base.{ℕ, Bool, Option, List}
use inel.Base.Int.{ℤ}
use inel.RingResult.{Cqe}

-- `types::Target`: a file descriptor, or the slot of a direct file.
pub data Target : Type 0 where
  fd : ℤ → Target
  fixed : ℕ → Target

-- `Option<DestinationSlot>`: none, one that the kernel picks, or a given slot.
pub data FileIndex : Type 0 where
  no_slot : FileIndex
  auto_target : FileIndex
  slot : ℕ → FileIndex

-- `io_uring::opcode`, with the arguments in the order of the builders. Addresses are numbers.
-- `read_select` is a read with a buffer group, its last but one argument, and the flag BUFFER_SELECT.
pub data Opcode : Type 0 where
  nop : Opcode
  async_cancel : ℕ → Opcode
  read : Target → ℕ → ℕ → ℕ → Opcode
  write : Target → ℕ → ℕ → ℕ → Opcode
  read_fixed : Target → ℕ → ℕ → ℕ → ℕ → Opcode
  write_fixed : Target → ℕ → ℕ → ℕ → ℕ → Opcode
  readv : Target → ℕ → ℕ → ℕ → Opcode
  writev : Target → ℕ → ℕ → ℕ → Opcode
  open_at : ℤ → ℕ → ℕ → ℕ → FileIndex → Opcode
  close : Target → Opcode
  fsync : Target → Bool → Opcode
  statx : ℤ → ℕ → ℕ → ℕ → Opcode
  mk_dir_at : ℤ → ℕ → ℕ → Opcode
  ftruncate : Target → ℕ → Opcode
  fadvise : Target → ℕ → ℕ → ℕ → Opcode
  fallocate : Target → ℕ → ℕ → Opcode
  link_at : ℤ → ℕ → ℤ → ℕ → Opcode
  symlink_at : ℤ → ℕ → ℕ → Opcode
  unlink_at : ℤ → ℕ → ℕ → Opcode
  socket : ℕ → ℕ → ℕ → FileIndex → Opcode
  bind : Target → ℕ → ℕ → Opcode
  listen : Target → ℕ → Opcode
  connect : Target → ℕ → ℕ → Opcode
  accept : Target → ℕ → ℕ → FileIndex → Opcode
  accept_multi : Target → Bool → Opcode
  shutdown : Target → ℕ → Opcode
  timeout : ℕ → Opcode
  update_files : ℕ → ℕ → Opcode
  fixed_fd_install : ℕ → ℕ → Opcode
  provide_buffers : ℕ → ℕ → ℕ → ℕ → ℕ → Opcode
  remove_buffers : ℕ → ℕ → Opcode
  read_select : Target → ℕ → ℕ → ℕ → ℕ → Opcode
  read_multi : Target → ℕ → Opcode

-- `squeue::Entry`; `linked` is the flag IO_LINK.
pub record Entry : Type 0 where
  pub opcode : Opcode
  pub user_data : ℕ
  pub linked : Bool

-- The calls of `Submitter` that register resources.
pub data Registration : Type 0 where
  buffers_sparse : ℕ → Registration
  buffer_update : ℕ → ℕ → ℕ → Registration
  files_sparse : ℕ → Registration
  file_alloc_range : ℕ → ℕ → Registration
  files_update : ℕ → List ℕ → Registration

-- `none` is the error of a call: a full submission queue, or a failed system call.
pub record IoUring : Type 1 where
  pub Instance : Type 0
  pub build : ℕ → Option Instance
  pub push : Entry → Instance → Option Instance
  pub submit_and_wait : ℕ → Instance → Option Instance
  pub completion : Instance → List Cqe × Instance
  pub register : Registration → Instance → Option Instance
