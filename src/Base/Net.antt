-- ===== src/Base/Net.antt =====
-- `IpAddr` and `SocketAddr` of the standard library: an address as the number that it spells.
use Prim.Native.Nat.{ℕ}
use mathlib.Core.Path.{◌≡◌, ap}
use mathlib.Core.Bool.{Bool, true, false, ◌&&◌}
use native.Mathlib.Omega.{arith}
use rtp_engine.Base.Tests.{◌==◌, ==_iff, ==_self}

pub data IpAddr : Type 0 where
  v4 : ℕ → IpAddr
  v6 : ℕ → IpAddr

pub record SocketAddr : Type 0 where
  pub ip : IpAddr
  pub port : ℕ
  -- Both are 0 for an IPv4 address.
  pub flowinfo : ℕ
  pub scope_id : ℕ

abbrev pub same_ip : IpAddr → IpAddr → Bool
same_ip (v4 a) (v4 b) = a == b
same_ip (v4 a) (v6 b) = false
same_ip (v6 a) (v4 b) = false
same_ip (v6 a) (v6 b) = a == b

abbrev pub same_addr : SocketAddr → SocketAddr → Bool
same_addr a b =
    same_ip a.ip b.ip
    && (a.port == b.port && (a.flowinfo == b.flowinfo && a.scope_id == b.scope_id))

pub same_ip_self : (a : IpAddr) → same_ip a a ≡ true
same_ip_self (v4 a) = ==_self a
same_ip_self (v6 a) = ==_self a

pub same_addr_self : (a : SocketAddr) → same_addr a a ≡ true
same_addr_self a = ground (arith, same_ip_self a.ip)

pub same_ip_sound : (a b : IpAddr) → same_ip a b ≡ true → a ≡ b
same_ip_sound (v4 a) (v4 b) e = ap v4 ((==_iff a b).0 e)
same_ip_sound (v4 a) (v6 b) e = absurd (ground arith)
same_ip_sound (v6 a) (v4 b) e = absurd (ground arith)
same_ip_sound (v6 a) (v6 b) e = ap v6 ((==_iff a b).0 e)

pub same_addr_sound : (a b : SocketAddr) → same_addr a b ≡ true → a ≡ b
same_addr_sound a b e = ground (arith, same_ip_sound a.ip b.ip)
