-- ===== src/Buffer/Cursor.antt =====
-- The views that the buffered readers and writers move along their buffer.
use inel.Base.Slices.{
  take-min, take-append_plus, take-append_exact, drop-take, drop-drop, nil_of_length,
}
use inel.Base.{
  ℕ, ◌↔◌, ◌+◌, ◌-◌, ◌≤◌, ◌≡◌, refl, sym, ap, ◌∙◌, min, Bool, true, false, List, [], ◌++◌, length,
  take, drop, ltb, ◌==◌, if◌then◌else◌, Outcome, done, panic, index_out_of_bounds, arith,
  length-append, length-take, length-drop, Bool-cases, inl, inr, ◌⊎◌,
}

-- `StableBufferMut`, by the bytes that `stable_mut_slice` shows: `store` writes all of them.
pub record StableBufferMut : Type 1 where
  pub Buf : Type 0
  pub bytes : Buf → List ℕ
  pub store : Buf → List ℕ → Buf
  pub bytes-store : (b : Buf) (m : List ℕ) → length m ≡ length (bytes b) → bytes (store b m) ≡ m

-- `Range<usize>`.
pub record Range : Type 0 where
  pub start : ℕ
  pub end : ℕ

-- What stands in front of the cursor after a copy of `input` behind `front`.
copied :
    (front input memory : List ℕ) (room : ℕ)
    → take
        (length front + min (length input) room)
        (front ++ (take (min (length input) room) input ++ memory))
      ≡ front ++ take room input
copied front input memory room =
    take-append_plus front (take (min (length input) room) input ++ memory)
      (min (length input) room)
    ∙ ap (◌++◌ front) (
        ap (λ n. take n (take (min (length input) room) input ++ memory)) cut
        ∙ take-append_exact (take (min (length input) room) input) memory
        ∙ take-min room input)
  where
    cut : min (length input) room ≡ length (take (min (length input) room) input)
    cut = omega (arith, length-take (min (length input) room) input)

module _ (B : StableBufferMut) where
  open B use {Buf, bytes, store}

  size : Buf → ℕ
  size b = length (bytes b)

  -- `View<B, Range<usize>>`.
  pub record Reading : Type 0 where
    pub inner : Buf
    pub range : Range

  -- `View<B, RangeTo<usize>>`.
  pub record Writing : Type 0 where
    pub inner : Buf
    pub pos : ℕ

  -- `Range::is_empty` is `!(start < end)`.
  unfoldable pub is_empty : Reading → Bool
  is_empty v = if ltb v.range.start v.range.end then false else true

  -- The sum stays within a `usize`: a caller consumes no more than it has been given.
  unfoldable pub consume : Reading → ℕ → Reading
  consume v amt = record v {
    range = record { start = min (v.range.start + amt) v.range.end; end = v.range.end };
  }

  -- `StableBuffer::stable_slice` of the view.
  unfoldable pub unread : Reading → List ℕ
  unread v =
      take (min v.range.end (length (bytes v.inner)) - v.range.start)
        (drop v.range.start (bytes v.inner))

  unfoldable pub is_unwritten : Writing → Bool
  is_unwritten v = v.pos == 0

  unfoldable pub set_pos : Writing → ℕ → Writing
  set_pos v pos = record v { pos = pos }

  unfoldable pub spare_capacity : Writing → ℕ
  spare_capacity v = length (bytes v.inner) - v.pos

  -- `Write for &mut [u8]` copies as much as fits.
  unfoldable pub fill : Writing → List ℕ → Outcome (Writing × ℕ)
  fill v input =
      let memory = bytes v.inner in
      if ltb (length memory) v.pos
      then panic index_out_of_bounds
      else (let wrote = min (length input) (length memory - v.pos) in
          done (
            record {
              inner =
                  store v.inner
                    (take v.pos memory ++ (take wrote input ++ drop (v.pos + wrote) memory));
              pos = v.pos + wrote;
            },
            wrote,
          ))

  unfoldable pub filled : Writing → List ℕ
  filled v = take v.pos (bytes v.inner)

  -- Filling a view whose cursor is within its buffer appends as much of the input as there is room
  -- for to what is filled, says how much that was, and keeps the buffer's size and the cursor
  -- within it.
  pub fill-filled :
      (v : Writing) (input : List ℕ)
      → v.pos ≤ length (bytes v.inner)
      → (w : Writing) × (fill v input ≡ done (w, min (length input) (spare_capacity v)))
        × (filled w ≡ filled v ++ take (spare_capacity v) input)
        × (spare_capacity w ≡ spare_capacity v - length input)
        × (w.pos ≤ length (bytes w.inner))
        × (length (bytes w.inner) ≡ length (bytes v.inner))
  unfolding fill filled spare_capacity
  fill-filled v input h =
      (w, rw fits refl, filled_eq, omega (arith, same, h), omega (arith, same, h), same)
    where
      memory : List ℕ
      memory = bytes v.inner

      room : ℕ
      room = length memory - v.pos

      wrote : ℕ
      wrote = min (length input) room

      after : List ℕ
      after = take v.pos memory ++ (take wrote input ++ drop (v.pos + wrote) memory)

      w : Writing
      w = record { inner = store v.inner after; pos = v.pos + wrote }

      fits : ltb (length memory) v.pos ≡ false
      fits = ground (arith, h)

      front : length (take v.pos memory) ≡ v.pos
      front = omega (arith, length-take v.pos memory, h)

      kept : length after ≡ length memory
      kept = omega (
        arith,
        h,
        front,
        length-append (take v.pos memory) (take wrote input ++ drop (v.pos + wrote) memory),
        length-append (take wrote input) (drop (v.pos + wrote) memory),
        length-take wrote input,
        length-drop (v.pos + wrote) memory,
      )

      same : length (bytes w.inner) ≡ length memory
      same = ap length (B.bytes-store v.inner after kept) ∙ kept

      filled_eq : take w.pos (bytes w.inner) ≡ take v.pos memory ++ take room input
      filled_eq =
          ap (take w.pos) (B.bytes-store v.inner after kept)
          ∙ ap (λ n. take (n + wrote) after) (sym front)
          ∙ copied (take v.pos memory) input (drop (v.pos + wrote) memory) room

  -- In a view whose range ends within its buffer, consuming bytes leaves the others, in order, and
  -- the view is empty exactly when nothing is left to read.
  pub consume-unread :
      (v : Reading) (amt : ℕ)
      → v.range.end ≤ length (bytes v.inner)
      → (unread (consume v amt) ≡ drop amt (unread v)) × ((is_empty v ≡ true) ↔ (unread v ≡ []))
  unfolding unread consume is_empty
  consume-unread v amt h = (consumed, is_empty_iff)
    where
      memory : List ℕ
      memory = bytes v.inner

      s : ℕ
      s = v.range.start

      e : ℕ
      e = v.range.end

      consumed :
          take (min e (length memory) - min (s + amt) e) (drop (min (s + amt) e) memory)
          ≡ drop amt (take (min e (length memory) - s) (drop s memory))
      consumed =
          before (Bool-cases (ltb e (s + amt)))
          ∙ ap (take (min e (length memory) - s - amt)) (sym (drop-drop amt s memory))
          ∙ sym (drop-take amt (min e (length memory) - s) (drop s memory))
        where
          before :
              ((ltb e (s + amt) ≡ true) ⊎ (ltb e (s + amt) ≡ false))
              → take (min e (length memory) - min (s + amt) e) (drop (min (s + amt) e) memory)
                ≡ take (min e (length memory) - s - amt) (drop (s + amt) memory)
          before (inl past) =
              let a : min e (length memory) - min (s + amt) e ≡ 0 = ground (arith, past, h) in
              let b : min e (length memory) - s - amt ≡ 0 = ground (arith, past, h) in
              rw (a, b) refl
          before (inr short) =
              let a : min (s + amt) e ≡ s + amt = ground (arith, short) in
              let b : min e (length memory) - (s + amt) ≡ min e (length memory) - s - amt =
                omega arith in
              rw (a, b) refl

      is_empty_iff :
          ((if ltb s e then false else true) ≡ true)
          ↔ (take (min e (length memory) - s) (drop s memory) ≡ [])
      is_empty_iff = elim (Bool-cases (ltb s e)) [
        | inl y ↦ (λ t. cc (rw y at t), λ t. absurd (ground (arith, y, h, ap length t, size)))
        | inr y ↦ (λ t. nil_of_length _ (ground (arith, y, h, size)), λ t. rw y refl)
      ]
        where
          size :
              length (take (min e (length memory) - s) (drop s memory))
              ≡ min (min e (length memory) - s) (length memory - s)
          size =
              omega (
                arith,
                length-take (min e (length memory) - s) (drop s memory),
                length-drop s memory,
              )

  pub is_empty-unread : (v : Reading) → is_empty v ≡ true → unread v ≡ []
  unfolding is_empty unread
  is_empty-unread v e =
      let none : min v.range.end (length (bytes v.inner)) - v.range.start ≡ 0 = ground (arith, e) in
      rw none refl
