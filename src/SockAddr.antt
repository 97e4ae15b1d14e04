-- ===== src/SockAddr.antt =====
-- src/ep/attr.rs: `SockAddr`, and `from_storage` of src/listener.rs, which reads an address back.
-- The host is little-endian: a number in network order holds its bytes in reverse. The family of a
-- struct is its constructor. Flow information is kept in network order, and a scope as it is.
use ucx_rs.Base.{ℕ, ◌+◌, ◌*◌, ◌/◌, ◌%◌, ◌^◌, ◌<◌, ◌≡◌, Option, none, some, List, arith, ap, ◌∙◌}

-- `std::net::SocketAddr`: the bytes of a version 4 address and a port; or the bytes of a version 6
-- address, a port, the flow information and the scope.
pub data SocketAddr : Type 0 where
  v4 : ℕ → ℕ → ℕ → ℕ → ℕ → SocketAddr
  v6 : List ℕ → ℕ → ℕ → ℕ → SocketAddr

-- `u32::from_ne_bytes`.
abbrev pub from_ne_bytes : ℕ → ℕ → ℕ → ℕ → ℕ
from_ne_bytes a b c d = a + b * 2 ^ 8 + c * 2 ^ 16 + d * 2 ^ 24

-- `u16::to_be` and `u16::from_be`, `u32::to_be` and `u32::from_be`.
abbrev pub swap16 : ℕ → ℕ
swap16 n = (n % 2 ^ 8) * 2 ^ 8 + (n / 2 ^ 8) % 2 ^ 8

abbrev pub swap32 : ℕ → ℕ
swap32 n =
    from_ne_bytes ((n / 2 ^ 24) % 2 ^ 8) ((n / 2 ^ 16) % 2 ^ 8) ((n / 2 ^ 8) % 2 ^ 8) (n % 2 ^ 8)

pub record SockaddrIn : Type 0 where
  pub sin_port : ℕ
  pub s_addr : ℕ

pub record SockaddrIn6 : Type 0 where
  pub sin6_port : ℕ
  pub sin6_flowinfo : ℕ
  pub s6_addr : List ℕ
  pub sin6_scope_id : ℕ

-- `SocketStorage`, and a `sockaddr_storage` that holds one of the two or has another family.
pub data SocketStorage : Type 0 where
  stored4 : SockaddrIn → SocketStorage
  stored6 : SockaddrIn6 → SocketStorage

pub data Storage : Type 0 where
  holds : SocketStorage → Storage
  other_family : ℕ → Storage

unfoldable pub new : SocketAddr → SocketStorage
new (v4 a b c d port) = stored4 (record { sin_port = swap16 port; s_addr = from_ne_bytes a b c d })
new (v6 octets port flowinfo scope_id) = stored6 (record {
  sin6_port = swap16 port;
  sin6_flowinfo = swap32 flowinfo;
  s6_addr = octets;
  sin6_scope_id = scope_id;
})

-- `size_of` of the two structs.
abbrev pub len : SocketStorage → ℕ
len (stored4 _) = 16
len (stored6 _) = 28

-- `ucs_sock_addr_t`.
pub record RawSockAddr : Type 0 where
  pub addr : ℕ
  pub addrlen : ℕ

-- `SockAddr::to_ffi`, for a struct that stands at an address.
abbrev pub to_ffi : ℕ → SocketStorage → RawSockAddr
to_ffi address s = record { addr = address; addrlen = len s }

-- `Ipv4Addr::from` of a number takes its bytes from the highest to the lowest.
abbrev pub addr4 : ℕ → ℕ → SocketAddr
addr4 n port =
    v4 ((n / 2 ^ 24) % 2 ^ 8) ((n / 2 ^ 16) % 2 ^ 8) ((n / 2 ^ 8) % 2 ^ 8) (n % 2 ^ 8) port

-- `SocketAddr::new` of a version 6 address has no flow information and no scope.
unfoldable pub from_storage : Storage → Option SocketAddr
from_storage (holds (stored4 s)) = some (addr4 (swap32 s.s_addr) (swap16 s.sin_port))
from_storage (holds (stored6 s)) = some (v6 s.s6_addr (swap16 s.sin6_port) 0 0)
from_storage (other_family _) = none

-- The bytes and the port are in range.
pub data IsValid : SocketAddr → Type 0 where
  valid4 :
      {a b c d port : ℕ}
      → a < 2 ^ 8
      → b < 2 ^ 8
      → c < 2 ^ 8
      → d < 2 ^ 8
      → port < 2 ^ 16
      → IsValid (v4 a b c d port)
  valid6 :
      {octets : List ℕ} {port flowinfo scope_id : ℕ}
      → port < 2 ^ 16
      → IsValid (v6 octets port flowinfo scope_id)

-- What is left of an address: all of it, but for the flow information and the scope.
abbrev pub unscoped : SocketAddr → SocketAddr
unscoped (v4 a b c d port) = v4 a b c d port
unscoped (v6 octets port flowinfo scope_id) = v6 octets port 0 0

swap16_lem : (n : ℕ) → n < 2 ^ 16 → swap16 (swap16 n) ≡ n
swap16_lem n lt = omega arith

-- The bytes of a number, from the highest to the lowest.
octets4 : ℕ → ℕ × ℕ × ℕ × ℕ
octets4 n = ((n / 2 ^ 24) % 2 ^ 8, (n / 2 ^ 16) % 2 ^ 8, (n / 2 ^ 8) % 2 ^ 8, n % 2 ^ 8)

octets4-from_ne_bytes :
    (a b c d : ℕ)
    → a < 2 ^ 8
    → b < 2 ^ 8
    → c < 2 ^ 8
    → d < 2 ^ 8
    → octets4 (from_ne_bytes a b c d) ≡ (d, c, b, a)
unfolding octets4
octets4-from_ne_bytes a b c d la lb lc ld =
    let e3 : (from_ne_bytes a b c d / 2 ^ 24) % 2 ^ 8 ≡ d = omega arith in
    let e2 : (from_ne_bytes a b c d / 2 ^ 16) % 2 ^ 8 ≡ c = omega arith in
    let e1 : (from_ne_bytes a b c d / 2 ^ 8) % 2 ^ 8 ≡ b = omega arith in
    let e0 : from_ne_bytes a b c d % 2 ^ 8 ≡ a = omega arith in λ i. (e3 i, e2 i, e1 i, e0 i)

swap32-octets :
    (a b c d port : ℕ)
    → a < 2 ^ 8
    → b < 2 ^ 8
    → c < 2 ^ 8
    → d < 2 ^ 8
    → addr4 (swap32 (from_ne_bytes a b c d)) port ≡ v4 a b c d port
unfolding octets4
swap32-octets a b c d port la lb lc ld =
    let read : ℕ × ℕ × ℕ × ℕ → SocketAddr = λ o. v4 o.0 o.1 o.2 o.3 port in
    let swap : ℕ × ℕ × ℕ × ℕ → ℕ = λ o. from_ne_bytes o.0 o.1 o.2 o.3 in
    ap (λ (o : ℕ × ℕ × ℕ × ℕ). read (octets4 (swap o))) (octets4-from_ne_bytes a b c d la lb lc ld)
    ∙ ap read (octets4-from_ne_bytes d c b a ld lc lb la)

-- An address that is handed to UCX and comes back in a storage reads as it was given, but that a
-- version 6 address has lost its flow information and its scope.
pub from_storage-new :
    (addr : SocketAddr) → IsValid addr → from_storage (holds (new addr)) ≡ some (unscoped addr)
unfolding from_storage new
from_storage-new _ (valid4 {a} {b} {c} {d} {port} la lb lc ld lp) =
    rw (swap16_lem port lp) (ap some (swap32-octets a b c d port la lb lc ld))
from_storage-new _ (valid6 {port = port} lp) = rw (swap16_lem port lp)
