-- ===== src/Tcp/Opened.antt =====
-- The descriptors that opening listeners and streams leaves open.
use inel.Base.{
  ℕ, ◌+◌, ◌<◌, ◌≡◌, refl, ap, subst, Bool-cases, false, ltb, ◌==◌, if◌then◌else◌, Option, none,
  some, List, [], ◌∷◌, ◌++◌, arith, inl, inr, zero, suc, Outcome, done, panic,
}
use inel.Address.{SocketAddr}
use inel.Op.Socket.{Socket, stream_from_addr}
use inel.Op.Results.{Result, ok, err}
use inel.Tcp.{
  Request, socket, bind, listen, connect, close, IoError, IoResult, succeeds, fails_with, Event,
  Kernel, Ran, run, answered, after, and_then, finish, is_success, drop_on_error, is_ipv4, bind_one,
  connect_one, try_each, for_each_addr, bind_listener, connect_stream,
}

-- Whether the event opens the descriptor, or closes it.
unfoldable pub opens : ℕ → Event → ℕ
opens fd e = elim e.request [
  | socket s ↦ elim e.answer [ ok n ↦ if n == fd then 1 else 0 | err x ↦ 0 ]
  | _ ↦ 0
]

unfoldable pub closes : ℕ → Event → ℕ
closes fd e = elim e.request [ close n ↦ if n == fd then 1 else 0 | _ ↦ 0 ]

unfoldable pub tally : (Event → ℕ) → List Event → ℕ
tally f [] = 0
tally f (e ∷ es) = f e + tally f es

unfoldable pub kept : ℕ → Outcome (IoResult ℕ) → ℕ
kept fd (done (succeeds n)) = if n == fd then 1 else 0
kept fd (done (fails_with e)) = 0
kept fd (panic p) = 0

-- That a body gives this number, where it succeeds.
unfoldable pub Gives : ℕ → Outcome (IoResult ℕ) → Type 0
Gives n (done (succeeds a)) = a ≡ n
Gives n (done (fails_with e)) = Unit {0}
Gives n (panic p) = Unit {0}

pub tally-append :
    (f : Event → ℕ) (xs ys : List Event) → tally f (xs ++ ys) ≡ tally f xs + tally f ys
unfolding tally
tally-append f [] ys = omega arith
tally-append f (x ∷ xs) ys = omega (arith, tally-append f xs ys)

module _ (K : Kernel) (fd : ℕ) where
  open K use {World, perform}

  -- What is opened, with so much before, is closed again or the result.
  unfoldable pub Settles : ℕ → Ran K ℕ → Type 0
  Settles before r =
      tally (opens fd) r.events + before ≡ tally (closes fd) r.events + kept fd r.result

  -- A body that opens and closes nothing, and gives the descriptor that it works on.
  unfoldable pub IsQuiet : ℕ → Ran K ℕ → Type 0
  unfolding Gives
  IsQuiet sock r =
      (tally (opens fd) r.events ≡ 0) × (tally (closes fd) r.events ≡ 0) × Gives sock r.result

  after-Settles :
      (past : List Event) (r : Ran K ℕ) (n : ℕ)
      → Settles (tally (opens fd) past + n) r
      → tally (closes fd) past ≡ 0
      → Settles n (after K past r)
  unfolding Settles after
  after-Settles past r n h shut = omega (
    arith,
    h,
    shut,
    tally-append (opens fd) past r.events,
    tally-append (closes fd) past r.events,
  )

  drop_on_error-Settles :
      (sock : ℕ) (r : Ran K ℕ)
      → 0 < fd
      → IsQuiet sock r
      → Settles (if sock == fd then 1 else 0) (drop_on_error K sock r)
  unfolding Settles IsQuiet Gives drop_on_error is_success kept tally opens closes run
  drop_on_error-Settles sock r pos quiet = by_result r.result quiet
    where
      closing :
          (x : Outcome (IoResult ℕ))
          → is_success K x ≡ false
          → kept fd x ≡ 0
          → IsQuiet sock (record r { result = x })
          → Settles (if sock == fd then 1 else 0) (drop_on_error K sock (record r { result = x }))
      closing x fails nothing (no_opens, no_closes, u) = elim (Bool-cases (ltb 0 sock)) [
        | inl y ↦
            rw (fails, y)
              (ground (
                arith,
                nothing,
                no_opens,
                no_closes,
                tally-append (opens fd) r.events (run K (close sock) r.world).events,
                tally-append (closes fd) r.events (run K (close sock) r.world).events,
              ))
        | inr y ↦ rw (fails, y) (ground (arith, nothing, no_opens, no_closes, pos, y))
      ]

      by_result :
          (x : Outcome (IoResult ℕ))
          → IsQuiet sock (record r { result = x })
          → Settles (if sock == fd then 1 else 0) (drop_on_error K sock (record r { result = x }))
      by_result (done (succeeds a)) (no_opens, no_closes, same) =
          rw same (omega (arith, no_opens, no_closes))
      by_result (done (fails_with e)) quiet' = closing (done (fails_with e)) refl refl quiet'
      by_result (panic p) quiet' = closing (panic p) refl refl quiet'

  pub run_socket-Settles :
      (s : Socket) (w : World) (k : ℕ → World → Ran K ℕ)
      → 0 < fd
      → ((sock : ℕ) (w' : World) → Settles (if sock == fd then 1 else 0) (k sock w'))
      → Settles 0 (and_then K (run K (socket s) w) k)
  unfolding and_then run answered Settles tally opens closes kept
  run_socket-Settles s w k pos law = by_answer ((perform (socket s) w).0) ((perform (socket s) w).1)
    where
      by_answer :
          (a : Result ℕ) (w' : World)
          → Settles 0 (
              and_then K
                (record {
                  result = answered K (socket s) a;
                  events = record { request = socket s; answer = a } ∷ [];
                  world = w';
                })
                k)
      by_answer (ok zero) w' = ground (arith, pos)
      by_answer (ok (suc n)) w' =
          after-Settles (record { request = socket s; answer = ok (suc n) } ∷ []) (k (suc n) w') 0
            (subst (λ m. Settles m (k (suc n) w')) (omega arith) (law (suc n) w')) refl
      by_answer (err e) w' = refl

  -- One more request that neither opens nor closes, in front of a body.
  pub and_then-IsQuiet :
      (sock : ℕ) (q : Request) (w : World) (k : ℕ → World → Ran K ℕ)
      → ((a : Result ℕ) → opens fd (record { request = q; answer = a }) ≡ 0)
      → closes fd (record { request = q; answer = ok 0 }) ≡ 0
      → ((n : ℕ) (w' : World) → IsQuiet sock (k n w'))
      → IsQuiet sock (and_then K (run K q w) k)
  unfolding and_then run after IsQuiet Gives tally closes
  and_then-IsQuiet sock q w k no_opens no_closes law =
      by_result ((perform q w).0) (answered K q ((perform q w).0)) ((perform q w).1)
    where
      by_result :
          (a : Result ℕ) (x : Outcome (IoResult ℕ)) (w' : World)
          → IsQuiet sock (
              and_then K
                (record {
                  result = x;
                  events = record { request = q; answer = a } ∷ [];
                  world = w';
                })
                k)
      by_result a (done (succeeds n)) w' =
          let (x, y, z) = law n w' in (omega (arith, x, no_opens a), omega (arith, y, no_closes), z)
      by_result a (done (fails_with e)) w' =
          (omega (arith, no_opens a), omega (arith, no_closes), tt)
      by_result a (panic p) w' = (omega (arith, no_opens a), omega (arith, no_closes), tt)

  pub finish-IsQuiet : (sock : ℕ) (w : World) → IsQuiet sock (finish K sock w)
  unfolding finish IsQuiet Gives tally
  finish-IsQuiet sock w = (refl, refl, refl)

  bind_one-Settles : (addr : SocketAddr) (w : World) → 0 < fd → Settles 0 (bind_one K addr w)
  unfolding bind_one opens closes
  bind_one-Settles addr w pos =
      run_socket-Settles (stream_from_addr (is_ipv4 addr)) w _ pos (λ sock w1.
        drop_on_error-Settles sock _ pos (
          and_then-IsQuiet sock (bind sock addr) w1 _ (λ a. refl) refl
            (λ u w2.
              and_then-IsQuiet sock (listen sock 256) w2 _ (λ a. refl) refl
                (λ v w3. finish-IsQuiet sock w3))))

  connect_one-Settles : (addr : SocketAddr) (w : World) → 0 < fd → Settles 0 (connect_one K addr w)
  unfolding connect_one opens closes
  connect_one-Settles addr w pos =
      run_socket-Settles (stream_from_addr (is_ipv4 addr)) w _ pos (λ sock w1.
        drop_on_error-Settles sock _ pos (
          and_then-IsQuiet sock (connect sock addr) w1 _ (λ a. refl) refl
            (λ u w2. finish-IsQuiet sock w2)))

  try_next-Settles :
      (r : Ran K ℕ) (later : IoError → Ran K ℕ)
      → Settles 0 r
      → ((e : IoError) → Settles 0 (later e))
      → Settles 0 (elim r.result [
        | done x ↦ elim x [ succeeds a ↦ r | fails_with e ↦ after K r.events (later e) ]
        | panic p ↦ r
      ])
  unfolding Settles kept after
  try_next-Settles r later h law = by_result r.result refl
    where
      by_result :
          (x : Outcome (IoResult ℕ))
          → r.result ≡ x
          → Settles 0 (elim r.result [
            | done x ↦ elim x [ succeeds a ↦ r | fails_with e ↦ after K r.events (later e) ]
            | panic p ↦ r
          ])
      by_result (done (succeeds a)) q = rw q h
      by_result (panic p) q = rw q h
      by_result (done (fails_with e)) q = rw q (
          omega (
            arith,
            h,
            ap (kept fd) q,
            law e,
            tally-append (opens fd) r.events (later e).events,
            tally-append (closes fd) r.events (later e).events,
          ))

  pub try_each-Settles :
      (f : SocketAddr → World → Ran K ℕ)
      → ((addr : SocketAddr) (w : World) → Settles 0 (f addr w))
      → (last : Option IoError) (addrs : List SocketAddr) (w : World)
      → Settles 0 (try_each K f last addrs w)
  unfolding try_each Settles tally kept
  try_each-Settles f law last [] w = refl
  try_each-Settles f law last (addr ∷ addrs) w =
      try_next-Settles (f addr w) (λ e. try_each K f (some e) addrs (f addr w).world) (law addr w)
        (λ e. try_each-Settles f law (some e) addrs (f addr w).world)

  -- Whatever the kernel answers, binding a listener or connecting a stream to any addresses closes
  -- each descriptor but 0 as often as it has opened it, apart from the one that it gives as its
  -- result: nothing is leaked, closed twice, or given after it was closed, also where an answer
  -- makes the code panic.
  pub opening-Settles :
      (addrs : List SocketAddr) (w : World)
      → 0 < fd
      → Settles 0 (bind_listener K addrs w) × Settles 0 (connect_stream K addrs w)
  unfolding bind_listener connect_stream for_each_addr
  opening-Settles addrs w pos = (
    try_each-Settles (bind_one K) (λ a v. bind_one-Settles a v pos) none addrs w,
    try_each-Settles (connect_one K) (λ a v. connect_one-Settles a v pos) none addrs w,
  )
