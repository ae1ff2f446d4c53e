-- ===== src/Tcp/Auto.antt =====
-- `TcpStream::connect_direct` of crates/inel/src/net/tcp.rs: a stream in a slot that the kernel picks.
-- The numbers of the requests are slots here, and `close` closes one.
mod Tests
use inel.Base.{
  ℕ, ◌+◌, ◌≡◌, refl, ◌==◌, if◌then◌else◌, Option, none, some, List, [], ◌++◌, arith, ◌<◌, Outcome,
  done, panic, false,
}
use inel.Address.{SocketAddr}
use inel.Op.Socket.{stream_from_addr}
use inel.Tcp.{
  socket, connect, close, IoError, IoResult, succeeds, fails_with, Kernel, Ran, Io, run, and_then,
  finish, is_success, is_ipv4, for_each_addr,
}
use inel.Tcp.Opened.{
  Settles, IsQuiet, Gives, opens, closes, tally, kept, tally-append, run_socket-Settles,
  and_then-IsQuiet, finish-IsQuiet, try_each-Settles,
}

module _ (K : Kernel) where
  open K use {World}

  -- The drop of `OwnedDirect::auto` at an error or a panic: it closes any slot.
  unfoldable pub close_on_error : ℕ → Ran K ℕ → Ran K ℕ
  unfolding run is_success
  close_on_error slot r =
      if is_success K r.result
      then r
      else (let closed = run K (close slot) r.world in
          record { result = r.result; events = r.events ++ closed.events; world = closed.world })

  -- The body of `connect_direct`.
  unfoldable pub connect_direct_one : SocketAddr → Io K ℕ
  unfolding run and_then finish close_on_error is_ipv4
  connect_direct_one addr w =
      and_then K (run K (socket (stream_from_addr (is_ipv4 addr))) w) (λ slot w1.
        close_on_error slot (and_then K (run K (connect slot addr) w1) (λ u w2. finish K slot w2)))

  unfoldable pub connect_direct : List SocketAddr → Io K ℕ
  unfolding for_each_addr connect_direct_one
  connect_direct addrs w = for_each_addr K addrs connect_direct_one w

  module _ (slot : ℕ) where
    close_on_error-Settles :
        (n : ℕ) (r : Ran K ℕ)
        → IsQuiet K slot n r
        → Settles K slot (if n == slot then 1 else 0) (close_on_error n r)
    unfolding Settles IsQuiet Gives close_on_error is_success kept tally opens closes run
    close_on_error-Settles n r quiet = by_result r.result quiet
      where
        closing :
            (x : Outcome (IoResult ℕ))
            → is_success K x ≡ false
            → kept slot x ≡ 0
            → IsQuiet K slot n (record r { result = x })
            → Settles K slot
                (if n == slot then 1 else 0)
                (close_on_error n (record r { result = x }))
        closing x fails nothing (no_opens, no_closes, u) = rw fails (
            ground (
              arith,
              nothing,
              no_opens,
              no_closes,
              tally-append (opens slot) r.events (run K (close n) r.world).events,
              tally-append (closes slot) r.events (run K (close n) r.world).events,
            ))

        by_result :
            (x : Outcome (IoResult ℕ))
            → IsQuiet K slot n (record r { result = x })
            → Settles K slot
                (if n == slot then 1 else 0)
                (close_on_error n (record r { result = x }))
        by_result (done (succeeds a)) (no_opens, no_closes, same) =
            rw same (omega (arith, no_opens, no_closes))
        by_result (done (fails_with e)) quiet' = closing (done (fails_with e)) refl refl quiet'
        by_result (panic p) quiet' = closing (panic p) refl refl quiet'

    connect_direct_one-Settles :
        (addr : SocketAddr) (w : World) → 0 < slot → Settles K slot 0 (connect_direct_one addr w)
    unfolding connect_direct_one opens closes
    connect_direct_one-Settles addr w pos =
        run_socket-Settles K slot (stream_from_addr (is_ipv4 addr)) w _ pos (λ n w1.
          close_on_error-Settles n _ (
            and_then-IsQuiet K slot n (connect n addr) w1 _ (λ a. refl) refl
              (λ u w2. finish-IsQuiet K slot n w2)))

    -- Whatever the kernel answers, connecting a direct stream to any addresses closes each slot but
    -- 0, on which `expect_direct` panics, as often as the kernel has filled it, apart from the one
    -- that the stream is in.
    pub connect_direct-Settles :
        (addrs : List SocketAddr) (w : World) → 0 < slot → Settles K slot 0 (connect_direct addrs w)
    unfolding connect_direct for_each_addr
    connect_direct-Settles addrs w pos =
        try_each-Settles K slot connect_direct_one (λ a v. connect_direct_one-Settles a v pos) none
          addrs w
