-- ===== src/Submission/Life.antt =====
-- The states that a streamed operation goes through, from its making to its drop.
use inel.Base.{
  ℕ, ◌+◌, ◌≡◌, ◌<◌, ◌^◌, refl, sym, subst, ap, ◌∙◌, ==_refl, Bool, true, Option, none, some, [],
  ◌∷◌, done,
}
use inel.RingResult.{Cqueue, RingResult}
use inel.Cancellation.{Cancellation}
use inel.Slab.{Slab}
use inel.IoUring.{IoUring, Entry}
use inel.Key
use inel.Completion
use inel.Completion.{Completion, vacant}
use inel.Completion.Spec
use inel.Completion.Spec.{Phase, ongoing, closed, discarded, Reply}
use inel.Completion.Frame.{phase}
use inel.Op.{Op, MultiOp}
use inel.Ring.{Ring, After}
use inel.Ring.Counts.{Counts, submit-Leaky, cancel-Leaky}
use inel.Submission.{
  Submission, initial, submitted, completed, Poll, Polling, poll_next, cancel, begin, started,
}
use inel.Submission.Marked.{Marked, new-Marked, result-Marked}
use inel.Submission.Stream.{is_live, held, poll_next-follows}

some_eq : {a b : Phase} → some a ≡ some b → a ≡ b
some_eq e = cc

-- Cancelling is allowed on a live key.
allowed :
    (p : Phase) (x : Cancellation)
    → is_live p ≡ true
    → (reply : Reply Bool) × (Spec.cancel p x ≡ some reply)
unfolding Spec.cancel
allowed (ongoing w rs) x l = (_, refl)
allowed (closed rs) x l = (_, refl)
allowed (discarded c) x l = cc

module _ (Q : Cqueue) (U : IoUring) (S : Slab Completion) where
  -- A submission that has its operation until it is completed, and whose key is live.
  pub data Sound {O : Op} (r : Ring Q U S) : Submission O → Type 0 where
    fresh : (op : O.Self) → Sound r (record { op = some op; state = initial })
    waiting :
        (op : O.Self) (k : ℕ) (p : Phase)
        → phase S r.completions k ≡ some p
        → Marked Q p
        → is_live p ≡ true
        → Sound r (record { op = some op; state = submitted k })
    over : Sound r (record { op = none; state = completed })

  -- The queue of the kernel has room, and so have the counters and the keys.
  pub record Room (r : Ring Q U S) : Type 0 where
    pub accepts : (e : Entry) → (u : U.Instance) × (U.push e r.ring ≡ some u)
    pub key : (waker : ℕ) → (S.insert (vacant waker) r.completions.slab).0 < 2 ^ 32
    pub small : r.active + r.detached + 1 < 2 ^ 31

  live_next :
      (p : Phase) {q : Phase} → is_live p ≡ true → (Spec.result p).next ≡ some q → is_live q ≡ true
  unfolding Spec.result
  live_next (ongoing w []) l e = ap is_live (sym (some_eq e))
  live_next (ongoing w (r ∷ rs)) l e = ap is_live (sym (some_eq e))
  live_next (closed []) l e = cc
  live_next (closed (r ∷ [])) l e = cc
  live_next (closed (r ∷ x ∷ rs)) l e = ap is_live (sym (some_eq e))
  live_next (discarded c) l e = cc

  held-Sound :
      {O : Op} {r : Ring Q U S} (op : O.Self) (k : ℕ) (n : Option Phase)
      → phase S r.completions k ≡ n
      → ((q : Phase) → n ≡ some q → Marked Q q × (is_live q ≡ true))
      → Sound {O = O} r (held op k n)
  held-Sound op k none e f = over
  held-Sound op k (some q) e f = waiting op k q e (f q refl).0 (f q refl).1

  -- What a poll that succeeds leaves.
  abbrev Fine : {O : Op} {A : Type 0} → Polling Q U S O A → Type 0
  Fine {A = A} p =
      (a : After Q U S (Poll A)) × (p.outcome ≡ done a)
      × Counts Q U S a.ring
      × Sound a.ring p.submission

  poll_waiting :
      (M : MultiOp) {r : Ring Q U S} (waker : ℕ) (f : RingResult → M.op.Output) (op : M.op.Self)
      (k : ℕ) (p : Phase)
      → ((x : RingResult) → M.next op x ≡ done (f x))
      → Counts Q U S r
      → phase S r.completions k ≡ some p
      → Marked Q p
      → is_live p ≡ true
      → Fine (poll_next Q U S M r (record { op = some op; state = submitted k }) waker)
  poll_waiting M waker f op k p t v at m l =
      let (r', e, v', phases) = poll_next-follows Q U S M k op waker f v at m l t in
      subst Fine (sym e) (
        _,
        refl,
        v',
        held-Sound op k _ (phases k ∙ rw (==_refl k) refl)
            (λ q n. (result-Marked Q p m n, live_next p l n)),
      )

  -- With room in the kernel's queue, the keys and the counters, every poll of a sound stream whose
  -- operation makes an item of every result returns, with the counters right, and leaves the stream
  -- sound: it does not panic, and it has its operation until it is completed.
  pub poll_next-Sound :
      (M : MultiOp) {r : Ring Q U S} {s : Submission M.op} (waker : ℕ)
      (f : M.op.Self → RingResult → M.op.Output)
      → ((op : M.op.Self) (x : RingResult) → M.next op x ≡ done (f op x))
      → Counts Q U S r
      → Room r
      → Sound r s
      → let p = poll_next Q U S M r s waker in
        (a : After Q U S (Poll (Option M.op.Output))) × (p.outcome ≡ done a)
        × Counts Q U S a.ring
        × Sound a.ring p.submission
  unfolding poll_next begin started
  poll_next-Sound M {r} waker f t v room (fresh op) =
      let (u, e) = room.accepts (record (M.op.entry op).0 {
        user_data = Key.as_u64 (Completion.insert S r.completions waker).0;
      }) in
      let (r', q, v', _, _, at, _) =
        submit-Leaky Q U S (M.op.entry op).0 waker v (room.key waker) room.small e in
      rw q
        (_, refl, v', waiting (M.op.entry op).1 _ (ongoing waker []) at (new-Marked Q waker) refl)
  poll_next-Sound M waker f t v room (waiting op k p at m l) =
      poll_waiting M waker (f op) op k p (t op) v at m l
  poll_next-Sound M {r} waker f t v room over = (_, refl, v, over)

  -- With room in the kernel's queue and the counters, dropping a sound submission returns, whatever
  -- its state; the counters stay right and the number of active entries is the same.
  pub cancel-Sound :
      (O : Op) {r : Ring Q U S} {s : Submission O}
      → Counts Q U S r
      → Room r
      → Sound r s
      → (a : After Q U S (Unit {0})) × (cancel Q U S O r s ≡ done a)
        × Counts Q U S a.ring
        × (a.ring.active ≡ r.active)
  unfolding cancel
  cancel-Sound O {r} v room (fresh op) = (_, refl, v, refl)
  cancel-Sound O {r} v room (waiting op k p at m l) =
      let (reply, h) = allowed p (O.cancel op) l in
      let (r', e, v', same, _) =
        cancel-Leaky Q U S k (O.entry_cancel (Key.as_u64 k)) (O.cancel op) v room.small
          (λ e. room.accepts _) at h in
      (_, e, v', same)
  cancel-Sound O {r} v room over = (_, refl, v, refl)
