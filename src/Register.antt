-- ===== src/Register.antt =====
-- crates/inel-reactor/src/ring/register.rs: slots of fixed buffers, buffer groups and direct files.
pub mod Lending
mod Tests
use inel.Base.{
  ℕ, ◌+◌, ◌%◌, ◌^◌, Bool, Option, some, none, List, [], ◌∷◌, length, ltb, ◌==◌, if◌then◌else◌,
}

-- `vacant` is a stack: its head is the last element of the source's vector. The three key types
-- (`DirectSlot`, `BufferSlot`, `BufferGroupId`) wrap a `SlotKey`, which is its index.
pub record SlotRegister : Type 0 where
  pub vacant : List ℕ
  pub len : ℕ
  pub size : ℕ

unfoldable pub new : ℕ → SlotRegister
new size = record { vacant = []; len = 0; size = size }

unfoldable pub take_fresh : SlotRegister → Option ℕ × SlotRegister
take_fresh r =
    if r.len == r.size then (none, r) else (some r.len, record r { len = (r.len + 1) % 2 ^ 32 })

unfoldable pub get : SlotRegister → Option ℕ × SlotRegister
unfolding take_fresh
get r = elim r.vacant [ slot ∷ rest ↦ (some slot, record r { vacant = rest }) | [] ↦ take_fresh r ]

unfoldable pub remove : SlotRegister → ℕ → SlotRegister
remove r key = if ltb key r.size then record r { vacant = key ∷ r.vacant } else r

unfoldable pub is_full : SlotRegister → Bool
is_full r = r.len == length r.vacant

-- `BufferGroupId::index`, cut to a `u16`; the index of the other keys is whole.
unfoldable pub group_index : ℕ → ℕ
group_index key = key % 2 ^ 16
