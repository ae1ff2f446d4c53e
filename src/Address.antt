-- ===== src/Address.antt =====
-- Socket addresses of crates/inel-reactor/src/util.rs, in the layout of libc.
mod Tests
use inel.Base.{
  ℕ, ◌+◌, ◌*◌, ◌/◌, ◌%◌, ◌<◌, ◌≡◌, ◌^◌, refl, ap, List, ◌==◌, if◌then◌else◌, Outcome, done, panic,
  assertion_failed, unreachable_code, arith,
}

-- The byte order of the machine.
pub data Endian : Type 0 where
  little big : Endian

pub record Octets : Type 0 where
  pub a : ℕ
  pub b : ℕ
  pub c : ℕ
  pub d : ℕ

-- `SocketAddr`: address and port; of version 6 also the flow and the scope.
pub data SocketAddr : Type 0 where
  v4 : Octets → ℕ → SocketAddr
  v6 : List ℕ → ℕ → ℕ → ℕ → SocketAddr

-- `SocketAddrCRepr`: the union by the family that its first field tells: `AF_INET` with port and
-- address, `AF_INET6` with port, address, flow and scope, or another family.
pub data SocketAddrCRepr : Type 0 where
  inet : ℕ → ℕ → SocketAddrCRepr
  inet6 : ℕ → List ℕ → ℕ → ℕ → SocketAddrCRepr
  other_family : ℕ → SocketAddrCRepr

-- `u16::to_be` and `u16::from_be`.
unfoldable pub to_be : Endian → ℕ → ℕ
to_be little port = port % 2 ^ 8 * 2 ^ 8 + port / 2 ^ 8
to_be big port = port

unfoldable pub from_be : Endian → ℕ → ℕ
from_be little port = port % 2 ^ 8 * 2 ^ 8 + port / 2 ^ 8
from_be big port = port

-- `u32::from_ne_bytes` and `u32::to_ne_bytes`.
unfoldable pub from_ne_bytes : Endian → Octets → ℕ
from_ne_bytes little o = o.a + o.b * 2 ^ 8 + o.c * 2 ^ 16 + o.d * 2 ^ 24
from_ne_bytes big o = o.d + o.c * 2 ^ 8 + o.b * 2 ^ 16 + o.a * 2 ^ 24

unfoldable pub to_ne_bytes : Endian → ℕ → Octets
to_ne_bytes little n = record {
  a = n % 2 ^ 8;
  b = n / 2 ^ 8 % 2 ^ 8;
  c = n / 2 ^ 16 % 2 ^ 8;
  d = n / 2 ^ 24 % 2 ^ 8;
}
to_ne_bytes big n = record {
  a = n / 2 ^ 24 % 2 ^ 8;
  b = n / 2 ^ 16 % 2 ^ 8;
  c = n / 2 ^ 8 % 2 ^ 8;
  d = n % 2 ^ 8;
}

-- The sizes of `sockaddr_in` and `sockaddr_in6`.
abbrev pub inet_size : ℕ
inet_size = 16

abbrev pub inet6_size : ℕ
inet6_size = 28

unfoldable pub into_raw_addr : Endian → SocketAddr → SocketAddrCRepr × ℕ
unfolding to_be from_ne_bytes
into_raw_addr m (v4 ip port) = (inet (to_be m port) (from_ne_bytes m ip), inet_size)
into_raw_addr m (v6 ip port flow scope) = (inet6 (to_be m port) ip flow scope, inet6_size)

unfoldable pub from_raw_addr : Endian → SocketAddrCRepr → ℕ → Outcome SocketAddr
unfolding from_be to_ne_bytes
from_raw_addr m (inet port s_addr) len =
    if len == inet_size
    then done (v4 (to_ne_bytes m s_addr) (from_be m port))
    else panic assertion_failed
from_raw_addr m (inet6 port ip flow scope) len =
    if len == inet6_size then done (v6 ip (from_be m port) flow scope) else panic assertion_failed
from_raw_addr m (other_family f) len = panic unreachable_code

-- Octets are bytes, and ports are `u16`s.
unfoldable pub IsAddress : SocketAddr → Type 0
IsAddress (v4 ip port) =
    (ip.a < 2 ^ 8) × (ip.b < 2 ^ 8) × (ip.c < 2 ^ 8) × (ip.d < 2 ^ 8) × (port < 2 ^ 16)
IsAddress (v6 ip port flow scope) = port < 2 ^ 16

from_be-to_be : (m : Endian) (port : ℕ) → port < 2 ^ 16 → from_be m (to_be m port) ≡ port
unfolding from_be to_be
from_be-to_be little port h = omega arith
from_be-to_be big port h = refl

abbrev octets : ℕ → ℕ → ℕ → ℕ → Octets
octets a b c d = record { a = a; b = b; c = c; d = d }

octets_eq :
    {a b c d a' b' c' d' : ℕ}
    → a ≡ a'
    → b ≡ b'
    → c ≡ c'
    → d ≡ d'
    → octets a b c d ≡ octets a' b' c' d'
octets_eq ea eb ec ed = cc

-- The four bytes of a number.
digits :
    (a b c d : ℕ)
    → a < 2 ^ 8
    → b < 2 ^ 8
    → c < 2 ^ 8
    → d < 2 ^ 8
    → let n = a + b * 2 ^ 8 + c * 2 ^ 16 + d * 2 ^ 24 in
      (n % 2 ^ 8 ≡ a)
      × (n / 2 ^ 8 % 2 ^ 8 ≡ b)
      × (n / 2 ^ 16 % 2 ^ 8 ≡ c)
      × (n / 2 ^ 24 % 2 ^ 8 ≡ d)
digits a b c d ha hb hc hd = (omega arith, omega arith, omega arith, omega arith)

bytes_back :
    (m : Endian) (a b c d : ℕ)
    → a < 2 ^ 8
    → b < 2 ^ 8
    → c < 2 ^ 8
    → d < 2 ^ 8
    → to_ne_bytes m (from_ne_bytes m (octets a b c d)) ≡ octets a b c d
unfolding to_ne_bytes from_ne_bytes
bytes_back little a b c d ha hb hc hd =
    let (ea, eb, ec, ed) = digits a b c d ha hb hc hd in octets_eq ea eb ec ed
bytes_back big a b c d ha hb hc hd =
    let (ed, ec, eb, ea) = digits d c b a hd hc hb ha in octets_eq ea eb ec ed

-- On a machine of either byte order, an address that is given to the kernel and read back is the
-- same.
pub from_raw_addr-into_raw_addr :
    (m : Endian) (addr : SocketAddr)
    → IsAddress addr
    → from_raw_addr m (into_raw_addr m addr).0 (into_raw_addr m addr).1 ≡ done addr
unfolding from_raw_addr into_raw_addr IsAddress
from_raw_addr-into_raw_addr m (v4 ip port) (a, b, c, d, p) =
    rw (bytes_back m ip.a ip.b ip.c ip.d a b c d, from_be-to_be m port p) refl
from_raw_addr-into_raw_addr m (v6 ip port flow scope) h = rw (from_be-to_be m port h) refl
