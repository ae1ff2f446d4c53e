-- ===== src/Buffered/Adapters.antt =====
-- The adapters of buffer groups: crates/inel/src/io/buffered/reader/group.rs and writer/group.rs. They
-- take buffers from a set and give them back.
use inel.Base.Slices.{nil_of_length}
use inel.Base.{
  ℕ, zero, suc, ◌-◌, ◌≤◌, ◌≡◌, refl, sym, inl, inr, Bool-cases, true, min, if◌then◌else◌, Option,
  none, some, List, [], length, take, arith,
}
use inel.Buffer.Cursor.{StableBufferMut, Reading, is_empty, unread, is_empty-unread}
use inel.Buffered.Reader.{Fits}

-- `Option<Box<[u8]>>` shows no bytes where there is no buffer.
abbrev pub bytes_of : (B : StableBufferMut) → Option B.Buf → List ℕ
bytes_of B none = []
bytes_of B (some b) = B.bytes b

abbrev pub stored : (B : StableBufferMut) → Option B.Buf → List ℕ → Option B.Buf
stored B none m = none
stored B (some b) m = some (B.store b m)

pub bytes_of-stored :
    (B : StableBufferMut) (b : Option B.Buf) (m : List ℕ)
    → length m ≡ length (bytes_of B b)
    → bytes_of B (stored B b m) ≡ m
bytes_of-stored B none m e = sym (nil_of_length m e)
bytes_of-stored B (some b) m e = B.bytes-store b m e

abbrev pub optional : StableBufferMut → StableBufferMut
optional B = record {
  Buf = Option B.Buf;
  bytes = bytes_of B;
  store = stored B;
  bytes-store = bytes_of-stored B;
}

module _ (B : StableBufferMut) {World : Type 0} where
  -- `GroupAdapter::post_consume`, with the insertion into the set.
  unfoldable pub give_back :
      (World → B.Buf → World)
      → World
      → Reading (optional B)
      → Option B.Buf
      → World × Reading (optional B)
  give_back insert w v none = (w, v)
  give_back insert w v (some b) = (insert w b, record v { inner = none })

  unfoldable pub post_consume :
      (World → B.Buf → World) → World → Reading (optional B) → World × Reading (optional B)
  unfolding give_back
  post_consume insert w v = if is_empty (optional B) v then give_back insert w v v.inner else (w, v)

  -- `GroupAdapter::pre_write`, with the buffer that the set gives.
  unfoldable pub pre_write : (World → B.Buf × World) → World → Option B.Buf → World × Option B.Buf
  pre_write get w none = let (b, w') = get w in (w', some b)
  pre_write get w (some b) = (w, some b)

  -- `GroupAdapter::post_flush`.
  unfoldable pub post_flush : (World → B.Buf → World) → World → Option B.Buf → World × Option B.Buf
  post_flush insert w none = (w, none)
  post_flush insert w (some b) = (insert w b, none)

  give_back-Fits :
      (insert : World → B.Buf → World) (w : World) (v : Reading (optional B)) (o : Option B.Buf)
      → is_empty (optional B) v ≡ true
      → Fits (optional B) v
      → Fits (optional B) ((give_back insert w v o).1)
        × (unread (optional B) ((give_back insert w v o).1) ≡ unread (optional B) v)
  unfolding give_back Fits unread is_empty
  give_back-Fits insert w v none y h = (h, refl)
  give_back-Fits insert w v (some b) y h =
      let room : min v.range.end 0 - v.range.start ≡ 0 = omega arith in
      (inr (ground (arith, y)), rw room (sym (is_empty-unread (optional B) v y)))

  pub post_consume-Fits :
      (insert : World → B.Buf → World) (w : World) (v : Reading (optional B))
      → Fits (optional B) v
      → Fits (optional B) ((post_consume insert w v).1)
        × (unread (optional B) ((post_consume insert w v).1) ≡ unread (optional B) v)
  unfolding post_consume
  post_consume-Fits insert w v h = elim (Bool-cases (is_empty (optional B) v)) [
    | inl y ↦ rw y (give_back-Fits insert w v v.inner y h)
    | inr y ↦ rw y (h, refl)
  ]

  pub pre_write-filled :
      (get : World → B.Buf × World) (w : World) (n : ℕ) (b : Option B.Buf)
      → n ≤ length (bytes_of B b)
      → (n ≤ length (bytes_of B ((pre_write get w b).1)))
        × (take n (bytes_of B ((pre_write get w b).1)) ≡ take n (bytes_of B b))
  unfolding pre_write
  pre_write-filled get w zero none h = (omega arith, refl)
  pre_write-filled get w (suc n) none h = absurd (omega (arith, h))
  pre_write-filled get w n (some b) h = (h, refl)
