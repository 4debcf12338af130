-- ===== src/Stun/Response.antt =====
-- The whole response: `parse_binding_response` of src/stun.rs.
use rtp_engine.Base.{
  ℕ, zero, suc, ◌+◌, ◌*◌, ◌/◌, ◌≤◌, ◌<◌, ◌≡◌, refl, ap, sym, ◌∙◌, true, List, [], ◌∷◌, ◌++◌, arith,
  length, slice, u16_at, u32_at, u16_to_be, u32_to_be, All, length-append, take-append, IsU16,
  IsU32,
}
use rtp_engine.Base.Net.{IpAddr, v4}
use rtp_engine.Error.{ok}
use rtp_engine.Stun.{same_bytes, find_address, parse_binding_response}
use rtp_engine.Stun.Laws.{
  Attribute, attribute_bytes, all_bytes, xor_address, response, IsForeign, same_bytes_self,
  find_address-all_bytes,
}

passes_guards :
    (xs txn : List ℕ) (msg_len : ℕ)
    → 20 + msg_len ≤ length xs
    → u16_at xs 0 ≡ 0x0101
    → u32_at xs 4 ≡ 0x2112A442
    → slice 8 20 xs ≡ txn
    → u16_at xs 2 ≡ msg_len
    → parse_binding_response xs txn ≡ find_address msg_len xs (20 + msg_len) 20
unfolding parse_binding_response
passes_guards xs txn msg_len inside kind cookie same len =
    ground (arith, ap (λ s. same_bytes s txn) same ∙ same_bytes_self txn)

length-all_bytes : (attributes : List Attribute) → length attributes ≤ length (all_bytes attributes)
length-all_bytes [] = omega arith
length-all_bytes (a ∷ rest) =
    omega (arith, length-all_bytes rest, length-append (attribute_bytes a) (all_bytes rest))

-- A response to the same transaction, with a XOR-MAPPED-ADDRESS of an IPv4 address and a port behind
-- any number of whole, padded attributes of other types, and followed by anything, parses to that
-- address and port, when its length fits 16 bits.
pub parse-response :
    (txn : List ℕ) (foreign : List Attribute) (more : List ℕ) (ip port : ℕ)
    → length txn ≡ 12
    → All IsForeign foreign
    → IsU32 ip
    → IsU16 port
    → length (all_bytes foreign ++ (attribute_bytes (xor_address ip port) ++ more)) < 65536
    → parse_binding_response
        (response txn (all_bytes foreign ++ (attribute_bytes (xor_address ip port) ++ more)))
        txn
      ≡ ok (v4 ip, port)
parse-response txn foreign more ip port twelve skipped small small_port fits =
    let body = all_bytes foreign ++ (attribute_bytes (xor_address ip port) ++ more) in
    let len = length body in
    let header = u16_to_be 0x0101 ++ (u16_to_be len ++ (u32_to_be 0x2112A442 ++ txn)) in
    let total = length-append txn body in
    let parts = length-append (all_bytes foreign) (attribute_bytes (xor_address ip port) ++ more) in
    passes_guards (response txn body) txn len (omega (arith, total, twelve)) refl refl
      (take-append txn body 12 (sym twelve)) (omega (arith, fits))
    ∙ ap (find_address len (response txn body) (20 + len)) (omega (arith, twelve))
    ∙ find_address-all_bytes foreign len header more (20 + len) ip port skipped small small_port
        (omega (arith, parts, length-all_bytes foreign)) (omega (arith, total, twelve))

same_bytes_sound : (xs ys : List ℕ) → same_bytes xs ys ≡ true → xs ≡ ys
unfolding same_bytes
same_bytes_sound [] [] same = refl
same_bytes_sound [] (y ∷ ys) same = absurd (ground arith)
same_bytes_sound (x ∷ xs) [] same = absurd (ground arith)
same_bytes_sound (x ∷ xs) (y ∷ ys) same = ground (arith, same_bytes_sound xs ys)

-- Bytes that parse to an address and a port are a whole binding response, with the magic cookie and
-- the transaction id that was asked for.
pub parse_binding_response_sound :
    (xs txn : List ℕ) (ip : IpAddr) (port : ℕ)
    → parse_binding_response xs txn ≡ ok (ip, port)
    → (20 + u16_at xs 2 ≤ length xs)
      × (u16_at xs 0 ≡ 0x0101)
      × (u32_at xs 4 ≡ 0x2112A442)
      × (slice 8 20 xs ≡ txn)
unfolding parse_binding_response
parse_binding_response_sound xs txn ip port e = ground (arith, same_bytes_sound (slice 8 20 xs) txn)

-- The rounds given to the loop are enough: from where no more bytes are left than rounds, any number
-- of rounds gives the same result.
pub find_address-fuel :
    (fuel more : ℕ) (xs : List ℕ) (end offset : ℕ)
    → end ≤ offset + fuel
    → end ≤ offset + more
    → find_address fuel xs end offset ≡ find_address more xs end offset
unfolding find_address
find_address-fuel zero zero xs end offset enough too = refl
find_address-fuel zero (suc more) xs end offset enough too = ground arith
find_address-fuel (suc fuel) zero xs end offset enough too = ground arith
find_address-fuel (suc fuel) (suc more) xs end offset enough too = ground (
  arith,
  find_address-fuel fuel more xs end (offset + 4 + (u16_at xs (offset + 2) + 3) / 4 * 4)
      (omega arith) (omega arith),
)
