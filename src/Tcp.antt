-- ===== src/Tcp.antt =====
-- crates/inel/src/net/tcp.rs: how listeners and streams are opened, over what the kernel answers.
-- A descriptor that is dropped on the way is closed, by `OwnedFd` of crates/inel/src/source.rs.
pub mod Opened
pub mod Streams
pub mod Direct
pub mod Auto
mod Tests
use inel.Base.{
  ℕ, zero, suc, Bool, true, false, ltb, ◌==◌, if◌then◌else◌, Option, none, some, List, [], ◌∷◌,
  ◌++◌, Outcome, done, panic, unreachable_code,
}
use inel.Base.Int.{ℤ}
use inel.Address.{SocketAddr, v4, v6}
use inel.Op.Socket.{Socket, stream_from_addr}
use inel.Op.Results.{Result, ok, err}

-- What is asked of the kernel; `close` is detached, and nobody waits for its answer.
pub data Request : Type 0 where
  socket : Socket → Request
  bind : ℕ → SocketAddr → Request
  listen : ℕ → ℕ → Request
  connect : ℕ → SocketAddr → Request
  close : ℕ → Request

-- `io::Error`: that of a system call, or `ErrorKind::InvalidInput`.
pub data IoError : Type 0 where
  os_error : ℤ → IoError
  invalid_input : IoError

pub data IoResult (A : Type 0) : Type 0 where
  succeeds : A → IoResult A
  fails_with : IoError → IoResult A

-- A request with its answer, in the order in which they are made.
pub record Event : Type 0 where
  pub request : Request
  pub answer : Result ℕ

-- The kernel, and what is awaited from it.
pub record Kernel : Type 1 where
  pub World : Type 0
  pub perform : Request → World → Result ℕ × World

unfoldable pub is_ipv4 : SocketAddr → Bool
is_ipv4 a = elim a [ v4 ip port ↦ true | v6 ip port flow scope ↦ false ]

module _ (K : Kernel) where
  open K use {World, perform}

  pub record Ran (A : Type 0) : Type 0 where
    pub result : Outcome (IoResult A)
    pub events : List Event
    pub world : World

  abbrev pub Io : Type 0 → Type 0
  Io A = World → Ran A

  -- `result` of the operations: `expect_fd` for a socket, and `expect_zero` for what is done with it.
  unfoldable pub answered : Request → Result ℕ → Outcome (IoResult ℕ)
  answered q (err e) = done (fails_with (os_error e))
  answered (close fd) (ok n) = done (succeeds n)
  answered (socket s) (ok zero) = panic unreachable_code
  answered (socket s) (ok (suc n)) = done (succeeds (suc n))
  answered (bind fd addr) (ok zero) = done (succeeds 0)
  answered (bind fd addr) (ok (suc n)) = panic unreachable_code
  answered (listen fd backlog) (ok zero) = done (succeeds 0)
  answered (listen fd backlog) (ok (suc n)) = panic unreachable_code
  answered (connect fd addr) (ok zero) = done (succeeds 0)
  answered (connect fd addr) (ok (suc n)) = panic unreachable_code

  -- `.run_on(GlobalReactor).await`.
  unfoldable pub run : Request → Io ℕ
  unfolding answered
  run q w =
      let (a, w') = perform q w in
      record { result = answered q a; events = record { request = q; answer = a } ∷ []; world = w' }

  -- The rest of a body, behind the events so far.
  unfoldable pub after : {A : Type 0} → List Event → Ran A → Ran A
  after past r = record r { events = past ++ r.events }

  -- `?`.
  unfoldable pub and_then : {A B : Type 0} → Ran A → (A → Io B) → Ran B
  unfolding after
  and_then r k = elim r.result [
    | done x ↦ elim x [
      | succeeds a ↦ after r.events (k a r.world)
      | fails_with e ↦ record { result = done (fails_with e); events = r.events; world = r.world }
    ]
    | panic p ↦ record { result = panic p; events = r.events; world = r.world }
  ]

  unfoldable pub finish : {A : Type 0} → A → Io A
  finish a w = record { result = done (succeeds a); events = []; world = w }

  -- Whether a body hands on what it owns.
  unfoldable pub is_success : {A : Type 0} → Outcome (IoResult A) → Bool
  is_success (done (succeeds a)) = true
  is_success (done (fails_with e)) = false
  is_success (panic p) = false

  -- `OwnedFd::drop`, which spares 0, at the end of a body that owns it, by an error or a panic.
  unfoldable pub drop_on_error : ℕ → Ran ℕ → Ran ℕ
  unfolding run is_success
  drop_on_error fd r =
      if is_success r.result
      then r
      else (if ltb 0 fd
          then (let closed = run (close fd) r.world in
              record {
                result = r.result;
                events = r.events ++ closed.events;
                world = closed.world;
              })
          else r)

  -- The body of `TcpListener::bind`: the listener is its descriptor.
  unfoldable pub bind_one : SocketAddr → Io ℕ
  unfolding run and_then finish drop_on_error is_ipv4
  bind_one addr w = and_then (run (socket (stream_from_addr (is_ipv4 addr))) w) (λ sock w1.
      drop_on_error sock (
        and_then (run (bind sock addr) w1)
          (λ u w2. and_then (run (listen sock 256) w2) (λ v w3. finish sock w3))))

  -- The body of `TcpStream::connect`.
  unfoldable pub connect_one : SocketAddr → Io ℕ
  unfolding run and_then finish drop_on_error is_ipv4
  connect_one addr w = and_then (run (socket (stream_from_addr (is_ipv4 addr))) w) (λ sock w1.
      drop_on_error sock (and_then (run (connect sock addr) w1) (λ u w2. finish sock w2)))

  -- The loop of `for_each_addr`, with the last error.
  unfoldable pub try_each : (SocketAddr → Io ℕ) → Option IoError → List SocketAddr → Io ℕ
  unfolding after
  try_each f last [] w = record {
    result = done (fails_with (elim last [ none ↦ invalid_input | some e ↦ e ]));
    events = [];
    world = w;
  }
  try_each f last (addr ∷ addrs) w =
      let r = f addr w in
      let later : IoError → Ran ℕ = λ e. try_each f (some e) addrs r.world in
      elim r.result [
        | done x ↦ elim x [ succeeds a ↦ r | fails_with e ↦ after r.events (later e) ]
        | panic p ↦ r
      ]

  -- `for_each_addr` on the addresses that the argument resolves to.
  unfoldable pub for_each_addr : List SocketAddr → (SocketAddr → Io ℕ) → Io ℕ
  unfolding try_each
  for_each_addr addrs f w = try_each f none addrs w

  unfoldable pub bind_listener : List SocketAddr → Io ℕ
  unfolding for_each_addr bind_one
  bind_listener addrs w = for_each_addr addrs bind_one w

  unfoldable pub connect_stream : List SocketAddr → Io ℕ
  unfolding for_each_addr connect_one
  connect_stream addrs w = for_each_addr addrs connect_one w
