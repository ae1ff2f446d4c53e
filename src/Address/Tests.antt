-- ===== src/Address/Tests.antt =====
-- Concrete addresses.
use inel.Base.{◌≡◌, done, arith}
use inel.Address.{
  SocketAddr, v4, little, from_raw_addr, into_raw_addr, IsAddress, from_raw_addr-into_raw_addr,
}

-- 127.0.0.1:8080.
abbrev localhost : SocketAddr
localhost = v4 (record { a = 127; b = 0; c = 0; d = 1 }) 8080

localhost-IsAddress : IsAddress localhost
unfolding IsAddress
localhost-IsAddress = (omega arith, omega arith, omega arith, omega arith, omega arith)

from_raw_addr-into_raw_addr_example :
    from_raw_addr little (into_raw_addr little localhost).0 (into_raw_addr little localhost).1
    ≡ done localhost
from_raw_addr-into_raw_addr_example =
    from_raw_addr-into_raw_addr little localhost localhost-IsAddress
