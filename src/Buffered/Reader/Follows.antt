-- ===== src/Buffered/Reader/Follows.antt =====
-- The buffered reader against the stream of its source.
use inel.Base.{
  ℕ, List, [], ◌∷◌, ◌++◌, length, length-take, eq-or-ne, append_assoc, take-append-drop, take, drop,
  min, ◌≤◌, ◌<◌, ◌≡◌, refl, sym, ap, ap₂, ◌∙◌, ◌⊎◌, inl, inr, done, arith,
}
use inel.Buffer.Cursor.{StableBufferMut, consume}
use inel.Op.Results.{Result, ok, err}
use inel.Submission.{Poll, pending, ready}
use inel.Buffered.Reader.{
  Source, BufReaderInner, BufReaderState, is_taken, is_pending, is_filled, advance, reading,
  poll_read, read, poll_reads,
}
use inel.Buffered.Reader.Fill.{
  held, ahead, IsWhole, Gives, Answers, Because, drop-nil, consume-Fits, poll_fill_buf-Gives,
}

module _ (B : StableBufferMut) (S : Source B) where
  open B use {Buf, bytes}
  open S use {World, Future, create_future, post_consume, rest}

  -- What taking bytes off the front leaves to give.
  advance-ahead :
      (r : BufReaderInner B S) (n : ℕ)
      → IsWhole B S r.state
      → IsWhole B S ((advance B S r n).state)
        × (ahead B S (advance B S r n) ≡ drop n (held B S r.state) ++ rest r.source)
  unfolding advance IsWhole ahead held
  advance-ahead r n whole = by_state r.source r.state whole
    where
      by_state :
          (w : World) (s : BufReaderState B S)
          → IsWhole B S s
          → IsWhole B S ((advance B S (record { source = w; state = s }) n).state)
            × (ahead B S (advance B S (record { source = w; state = s }) n)
                ≡ drop n (held B S s) ++ rest w)
      by_state w is_taken h = absurd h
      by_state w (is_pending f) h = (h, ap (◌++ rest w) (sym (drop-nil B S n)))
      by_state w (is_filled v) h =
          let (fits, left) = consume-Fits B S v n h in
          let (fits', same) = S.post-unread w (consume B v n) fits in
          (fits', ap₂ ◌++◌ (same ∙ left) (S.post-rest w (consume B v n)))

  reading-follows :
      (stream : List ℕ) (room : ℕ) (r : BufReaderInner B S) (g : Poll (Result (List ℕ)))
      → IsWhole B S r.state
      → Gives B S stream r g
      → Because B S 1 g
      → (r' : BufReaderInner B S) × (g' : Poll (Result (List ℕ))) × (reading B S room (r, g)
          ≡ done (r', g'))
        × IsWhole B S r'.state
        × (stream ≡ read B S g' ++ ahead B S r')
        × (length (read B S g') ≤ room)
        × Because B S room g'
  unfolding reading Gives read held ahead Because
  reading-follows stream room r pending whole gives why =
      (_, _, refl, whole, gives, omega arith, why)
  reading-follows stream room r (ready (err e)) whole gives why =
      (_, _, refl, whole, gives, omega arith, why)
  reading-follows stream room r (ready (ok slice)) whole gives why =
      (_, _, refl, left.0, follows, omega (arith, length-take len slice), some why)
    where
      len : ℕ
      len = min (length slice) room

      some :
          (◌≡◌ {A = ℕ} 1 0) ⊎ ((0 < length slice) ⊎ Answers B S (ready (ok 0)))
          → (room ≡ 0) ⊎ ((0 < length (take len slice)) ⊎ Answers B S (ready (ok 0)))
      some (inl one) = absurd (omega (arith, one))
      some (inr (inr end)) = inr (inr end)
      some (inr (inl h)) = elim (eq-or-ne room 0) [
        | inl y ↦ inl y
        | inr y ↦ inr (inl (omega (arith, y, h, length-take len slice)))
      ]

      left :
          IsWhole B S ((advance B S r len).state)
          × (ahead B S (advance B S r len) ≡ drop len (held B S r.state) ++ rest r.source)
      left = advance-ahead r len whole

      after : drop len slice ++ rest r.source ≡ ahead B S (advance B S r len)
      after = ap (λ t. drop len t ++ rest r.source) (sym gives.0) ∙ sym left.1

      follows : stream ≡ take len slice ++ ahead B S (advance B S r len)
      follows =
          gives.1
          ∙ ap (◌++ rest r.source) (gives.0 ∙ sym (take-append-drop len slice))
          ∙ append_assoc (take len slice) (drop len slice) (rest r.source)
          ∙ ap (take len slice ++◌) after

  -- A poll of a whole buffered reader, with room for some bytes, always returns and leaves the
  -- reader whole. The bytes that it gives, no more than there is room for, are the next of the
  -- stream of those held and those of the source, which goes on behind them; it gives none with
  -- `pending` or an error. It is pending, or fails, only where the source is or does, and it is
  -- ready with no bytes only where there is no room or the source has answered with its end.
  pub poll_read-follows :
      (r : BufReaderInner B S) (room : ℕ)
      → IsWhole B S r.state
      → (r' : BufReaderInner B S) × (g : Poll (Result (List ℕ))) × (poll_read B S r room
          ≡ done (r', g))
        × IsWhole B S r'.state
        × (ahead B S r ≡ read B S g ++ ahead B S r')
        × (length (read B S g) ≤ room)
        × Because B S room g
  unfolding poll_read ahead
  poll_read-follows r room whole =
      let (r', g, q, sound, gives, why) = poll_fill_buf-Gives B S r.source r.state whole in
      let (r'', g', q', sound', follows, few, why') =
        reading-follows (ahead B S r) room r' g sound gives why in
      (r'', g', rw q q', sound', follows, few, why')

  -- Polls of a whole buffered reader in a row, with whatever room and whatever the source answers,
  -- all return, leave the reader whole, and give together the next bytes of the stream, each once
  -- and in order.
  pub poll_reads-follows :
      (r : BufReaderInner B S) (rooms : List ℕ)
      → IsWhole B S r.state
      → (r' : BufReaderInner B S) × (bytes : List ℕ) × (poll_reads B S r rooms ≡ done (r', bytes))
        × IsWhole B S r'.state
        × (ahead B S r ≡ bytes ++ ahead B S r')
  unfolding poll_reads
  poll_reads-follows r [] whole = (_, _, refl, whole, refl)
  poll_reads-follows r (room ∷ rooms) whole =
      let (r', g, q, sound, follows, few, why) = poll_read-follows r room whole in
      let (r'', later, q', sound', follows') = poll_reads-follows r' rooms sound in
      (
        r'',
        read B S g ++ later,
        rw (q, q') refl,
        sound',
        follows
            ∙ ap (read B S g ++◌) follows'
            ∙ sym (append_assoc (read B S g) later (ahead B S r'')),
      )
