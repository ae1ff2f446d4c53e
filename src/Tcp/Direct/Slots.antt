-- ===== src/Tcp/Direct/Slots.antt =====
-- The slot that a direct listener is bound in.
use inel.Base.{
  ℕ, ◌≡◌, sym, subst, Option-cases, inl, inr, Option, none, some, List, [], ◌∷◌, count, done, panic,
  Outcome,
}
use inel.Register
use inel.Register.{SlotRegister}
use inel.Register.Lending.{Lent, get-Lends, get-same, remove-Lent}
use inel.Address.{SocketAddr}
use inel.Op.Results.{Result, ok, err}
use inel.Source.{as_slot}
use inel.Tcp.{IoError, IoResult, succeeds, fails_with}
use inel.Tcp.Direct.{
  Machine, Ran, DirectTcpListener, bind_at, end_body, joined, bind_entries, or_next, bind_any,
  bind_direct,
}

module _ (M : Machine) (out : List ℕ) where
  -- The slots that are lent when binding has ended as `o`.
  unfoldable pub Leaves : SlotRegister → Outcome (IoResult DirectTcpListener) → Type 0
  Leaves slots (done (succeeds l)) =
      Lent slots (as_slot l.direct ∷ out) × (count (as_slot l.direct) out ≡ 0)
  Leaves slots (done (fails_with e)) = Lent slots out
  Leaves slots (panic e) = Lent slots out

  end_body-Leaves :
      {A : Type 0} (slot : ℕ) (w : Machine.World M) (slots : SlotRegister) (o : Outcome (Result A))
      → Lent slots (slot ∷ out)
      → count slot out ≡ 0
      → let r = end_body M slot w slots o in Leaves r.slots r.outcome
  unfolding Leaves end_body as_slot
  end_body-Leaves slot w slots (done (ok a)) l fresh = (l, fresh)
  end_body-Leaves slot w slots (done (err e)) l fresh = remove-Lent slots [] slot out l
  end_body-Leaves slot w slots (panic e) l fresh = remove-Lent slots [] slot out l

  bind_at-Leaves :
      (addr : SocketAddr) (w : Machine.World M) (slots : SlotRegister)
      → Lent slots out
      → let r = bind_at M addr w (Register.get slots) in Leaves r.slots r.outcome
  unfolding bind_at Leaves
  bind_at-Leaves addr w slots l = elim (Option-cases (Register.get slots).0) [
    | inl g ↦ rw g (subst (λ s. Lent s out) (sym (get-same slots g)) l)
    | inr (slot, g) ↦
        let (lent, fresh, _) = get-Lends slots out l g in
        rw g (
          end_body-Leaves slot _ (Register.get slots).1
            (joined M (Machine.perform M (bind_entries M addr slot) w).0) lent fresh)
  ]

  or_next-Leaves :
      (r : Ran M DirectTcpListener)
      (next : IoError → Machine.World M → SlotRegister → Ran M DirectTcpListener)
      → Leaves r.slots r.outcome
      → ((e : IoError) (w : Machine.World M) (slots : SlotRegister)
          → Lent slots out
          → Leaves (next e w slots).slots (next e w slots).outcome)
      → Leaves (or_next M r next).slots (or_next M r next).outcome
  unfolding or_next Leaves
  or_next-Leaves r next h rest = by_outcome r.outcome h
    where
      by_outcome :
          (o : Outcome (IoResult DirectTcpListener))
          → Leaves r.slots o
          → Leaves
              (or_next M (record r { outcome = o }) next).slots
              (or_next M (record r { outcome = o }) next).outcome
      by_outcome (done (succeeds l)) h = h
      by_outcome (done (fails_with e)) h = rest e r.world r.slots h
      by_outcome (panic e) h = h

  bind_any-Leaves :
      (addrs : List SocketAddr) (last : Option IoError) (w : Machine.World M) (slots : SlotRegister)
      → Lent slots out
      → let r = bind_any M addrs last w slots in Leaves r.slots r.outcome
  unfolding bind_any Leaves
  bind_any-Leaves [] last w slots l = l
  bind_any-Leaves (addr ∷ addrs) last w slots l =
      or_next-Leaves (bind_at M addr w (Register.get slots)) (λ e. bind_any M addrs (some e))
        (bind_at-Leaves addr w slots l) (λ e w slots l. bind_any-Leaves addrs (some e) w slots l)

  -- Whatever the kernel answers, binding a direct listener to any addresses lends, where it
  -- succeeds, the slot of the listener, which was lent to nobody, and otherwise none: also where it
  -- panics, the slots of all the addresses that it has tried are given back.
  pub bind_direct-Leaves :
      (addrs : List SocketAddr) (w : Machine.World M) (slots : SlotRegister)
      → Lent slots out
      → let r = bind_direct M addrs w slots in Leaves r.slots r.outcome
  unfolding bind_direct
  bind_direct-Leaves addrs w slots l = bind_any-Leaves addrs none w slots l
