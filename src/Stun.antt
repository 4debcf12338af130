-- ===== src/Stun.antt =====
-- The STUN client of src/stun.rs: the request, and the response with its attributes. The sockets and
-- the resolution of server names are left out.
pub mod Laws
pub mod Response
mod Tests
use Prim.Native.Nat.{bit_xor}
use rtp_engine.Base.{
  ℕ, zero, suc, ◌+◌, ◌-◌, ◌*◌, ◌/◌, ◌%◌, Bool, true, false, not, ◌||◌, ◌&&◌, List, [], ◌∷◌, ◌++◌,
  ltb, leb, ◌==◌, if◌then◌else◌, length, slice, byte_at, u16_at, u32_at, u16_to_be, u32_to_be,
  u32_from_be,
}
use rtp_engine.Base.Net.{IpAddr, v4, SocketAddr, same_ip}
use rtp_engine.Error.{Result, ok, err, stun}

abbrev pub stun_binding_request : ℕ
stun_binding_request = 0x0001

abbrev pub stun_binding_response : ℕ
stun_binding_response = 0x0101

abbrev pub stun_magic_cookie : ℕ
stun_magic_cookie = 0x2112A442

abbrev pub attr_mapped_address : ℕ
attr_mapped_address = 0x0001

abbrev pub attr_xor_mapped_address : ℕ
attr_xor_mapped_address = 0x0020

pub record StunResult : Type 0 where
  pub public_ip : IpAddr
  pub public_port : ℕ
  pub local_ip : IpAddr
  pub local_port : ℕ

unfoldable pub public_addr : StunResult → SocketAddr
public_addr r = record { ip = r.public_ip; port = r.public_port; flowinfo = 0; scope_id = 0 }

unfoldable pub local_addr : StunResult → SocketAddr
local_addr r = record { ip = r.local_ip; port = r.local_port; flowinfo = 0; scope_id = 0 }

unfoldable pub is_natted : StunResult → Bool
is_natted r = not (same_ip r.public_ip r.local_ip) || not (r.public_port == r.local_port)

unfoldable pub build_binding_request : List ℕ → List ℕ
build_binding_request transaction_id =
    u16_to_be stun_binding_request
    ++ (u16_to_be 0 ++ (u32_to_be stun_magic_cookie ++ transaction_id))

unfoldable pub parse_xor_mapped_address : List ℕ → Result (IpAddr × ℕ)
parse_xor_mapped_address bytes =
    if ltb (length bytes) 8
    then err stun
    else let family = byte_at bytes 1 in
      let port = bit_xor (u16_at bytes 2) (stun_magic_cookie / 65536) in
      if family == 1 then ok (v4 (bit_xor (u32_at bytes 4) stun_magic_cookie), port) else err stun

unfoldable pub parse_mapped_address : List ℕ → Result (IpAddr × ℕ)
parse_mapped_address bytes =
    if ltb (length bytes) 8
    then err stun
    else if byte_at bytes 1 == 1
    then ok (v4 (u32_at bytes 4), u16_at bytes 2)
    else err stun

-- `&a == b` on slices.
unfoldable pub same_bytes : List ℕ → List ℕ → Bool
same_bytes [] [] = true
same_bytes [] (y ∷ ys) = false
same_bytes (x ∷ xs) [] = false
same_bytes (x ∷ xs) (y ∷ ys) = x == y && same_bytes xs ys

-- The `while` loop over the attributes, from `offset` on, with `end` for `20 + msg_len`.
unfoldable pub find_address : ℕ → List ℕ → ℕ → ℕ → Result (IpAddr × ℕ)
find_address zero bytes end offset = err stun
find_address (suc fuel) bytes end offset =
    let attr_type = u16_at bytes offset in
    let attr_len = u16_at bytes (offset + 2) in
    let start = offset + 4 in
    let further = find_address fuel bytes end (start + (attr_len + 3) / 4 * 4) in
    if ltb end (offset + 4)
    then err stun
    else if ltb (length bytes) (start + attr_len)
    then err stun
    else if attr_type == attr_xor_mapped_address
    then parse_xor_mapped_address (slice start (start + attr_len) bytes)
    else if attr_type == attr_mapped_address
    then parse_mapped_address (slice start (start + attr_len) bytes)
    else further

unfoldable pub parse_binding_response : List ℕ → List ℕ → Result (IpAddr × ℕ)
unfolding find_address same_bytes
parse_binding_response bytes expected_txn_id =
    if ltb (length bytes) 20
    then err stun
    else if not (u16_at bytes 0 == stun_binding_response)
    then err stun
    else if not (u32_at bytes 4 == stun_magic_cookie)
    then err stun
    else if not (same_bytes (slice 8 20 bytes) expected_txn_id)
    then err stun
    else let msg_len = u16_at bytes 2 in
      if ltb (length bytes) (20 + msg_len)
      then err stun
      else find_address msg_len bytes (20 + msg_len) 20
