-- ===== src/Buffered/Fix/Tests.antt =====
-- A reader that is fixed with bytes in its buffer.
use inel.Base.{ℕ, List, [], ◌∷◌, refl, ap, sym, inl, arith}
use inel.Buffer.Cursor.{StableBufferMut}
use inel.Submission.{pending}
use inel.Ring.{IoResult, ok, no_slots, io_error}
use inel.Buffered.Reader
use inel.Buffered.Reader.{Source, BufReaderInner, is_filled}
use inel.Buffered.Fix.{Registers, Continues, fix_reader, fix_reader-Continues}

abbrev lists : StableBufferMut
lists = record { Buf = List ℕ; bytes = λ b. b; store = λ b m. m; bytes-store = λ b m e. refl }

-- A source that has not answered yet: its world is what it will deliver.
abbrev waiting : Source lists
waiting = record {
  World = List ℕ;
  Future = List ℕ;
  create_future = λ w b. (w, b);
  poll = λ w f. (w, f, pending);
  post_consume = λ w v. (w, v);
  rest = λ w. w;
  create-rest = λ w b. refl;
  pending-rest = λ w w' f f' e. sym (ap (λ p. p.0) e);
  err-rest = λ w w' f f' b e. cc;
  ok-rest = λ w w' f f' b n e. cc;
  post-rest = λ w v. refl;
  post-unread = λ w v h. (h, refl);
}

buffer_in : IoResult (List ℕ) → List ℕ
buffer_in (ok b) = b
buffer_in no_slots = []
buffer_in io_error = []

-- Every buffer can be registered.
abbrev registers : Registers lists lists {W = List ℕ} {W' = List ℕ} (λ w. w) (λ w. w)
unfolding buffer_in
registers = record {
  register = λ w b. (w, ok b);
  register-bytes = λ w b w' b' e. (sym (ap (λ p. buffer_in p.1) e), sym (ap (λ p. p.0) e));
}

abbrev half_read : BufReaderInner lists waiting
half_read = record {
  source = 7 ∷ [];
  state = is_filled (record { inner = 4 ∷ 5 ∷ 6 ∷ 0 ∷ []; range = record { start = 1; end = 3 } });
}

fix_reader-Continues_example :
    Continues lists lists waiting waiting registers half_read
      (fix_reader lists lists waiting waiting registers half_read)
unfolding Reader.Fill.IsWhole Reader.Fits
fix_reader-Continues_example =
    fix_reader-Continues lists lists waiting waiting registers half_read (inl (omega arith))
