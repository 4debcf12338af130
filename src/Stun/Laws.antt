-- ===== src/Stun/Laws.antt =====
-- What a client of src/stun.rs reads from the response that a server writes by RFC 5389.
use Prim.Native.Nat.{bit_xor}
use rtp_engine.Base.{
  ℕ, zero, suc, ◌+◌, ◌*◌, ◌/◌, ◌≤◌, ◌<◌, ◌≡◌, ◌≢◌, refl, ap, ap₂, u32_from_be-to_be,
  u16_from_be-to_be, sym, ◌∙◌, true, List, [], ◌∷◌, ◌++◌, append_assoc, arith, length, slice,
  u16_at, u16_to_be, u32_to_be, All, length-append, slice-append, byte_at-append, bit_xor_undo,
  bit_xor-lt, ==_self, IsU16, IsU32,
}
use rtp_engine.Base.Net.{v4}
use rtp_engine.Error.{ok}
use rtp_engine.Stun.{parse_xor_mapped_address, same_bytes, find_address}

-- An attribute as a server writes it: its type, its value, and zeros up to a multiple of four bytes.
pub record Attribute : Type 0 where
  pub kind : ℕ
  pub value : List ℕ
  pub padding : List ℕ

abbrev pub attribute_bytes : Attribute → List ℕ
attribute_bytes a = u16_to_be a.kind ++ (u16_to_be (length a.value) ++ (a.value ++ a.padding))

abbrev pub all_bytes : List Attribute → List ℕ
all_bytes [] = []
all_bytes (a ∷ rest) = attribute_bytes a ++ all_bytes rest

-- The XOR-MAPPED-ADDRESS of an IPv4 address and a port.
abbrev pub xor_address : ℕ → ℕ → Attribute
xor_address ip port = record {
  kind = 0x0020;
  value = 0 ∷ 1 ∷ (u16_to_be (bit_xor port 0x2112) ++ u32_to_be (bit_xor ip 0x2112A442));
  padding = [];
}

abbrev pub response : List ℕ → List ℕ → List ℕ
response txn body =
    u16_to_be 0x0101 ++ (u16_to_be (length body) ++ (u32_to_be 0x2112A442 ++ (txn ++ body)))

-- An attribute that the client skips.
abbrev pub IsForeign : Attribute → Type 0
IsForeign a =
    IsU16 a.kind
    × (a.kind ≢ 0x0020)
    × (a.kind ≢ 0x0001)
    × (length a.value < 65536)
    × (length a.value + length a.padding ≡ (length a.value + 3) / 4 * 4)

pub same_bytes_self : (xs : List ℕ) → same_bytes xs xs ≡ true
unfolding same_bytes
same_bytes_self [] = refl
same_bytes_self (x ∷ xs) = ground (arith, ==_self x, same_bytes_self xs)

u16_at-append : (xs ys : List ℕ) (i j : ℕ) → j ≡ length xs + i → u16_at (xs ++ ys) j ≡ u16_at ys i
u16_at-append xs ys i j e =
    omega (arith, byte_at-append xs ys i j e, byte_at-append xs ys (i + 1) (j + 1) (omega arith))

xor_address_read :
    (ip port : ℕ)
    → IsU32 ip
    → IsU16 port
    → parse_xor_mapped_address (xor_address ip port).value ≡ ok (v4 ip, port)
unfolding parse_xor_mapped_address
xor_address_read ip port small small_port =
    let bounded = bit_xor-lt 32 ip 0x2112A442 small (omega arith) in
    let bounded_port = bit_xor-lt 16 port 0x2112 small_port (omega arith) in
    ap ok (
      ap₂ (λ a p. (v4 a, p))
        (ap (λ x. bit_xor x 0x2112A442) (u32_from_be-to_be (bit_xor ip 0x2112A442) bounded)
          ∙ bit_xor_undo ip 0x2112A442)
        (ap (λ x. bit_xor x 0x2112) (u16_from_be-to_be (bit_xor port 0x2112) bounded_port)
          ∙ bit_xor_undo port 0x2112))

-- One round of the loop over an attribute that is read whole.
skips :
    (fuel : ℕ) (xs : List ℕ) (end offset kind len : ℕ)
    → u16_at xs offset ≡ kind
    → u16_at xs (offset + 2) ≡ len
    → offset + 4 ≤ end
    → offset + 4 + len ≤ length xs
    → kind ≢ 0x0020
    → kind ≢ 0x0001
    → find_address (suc fuel) xs end offset
      ≡ find_address fuel xs end (offset + 4 + (len + 3) / 4 * 4)
unfolding find_address
skips fuel xs end offset kind len k l within inside x m = ground arith

finds_xor :
    (fuel : ℕ) (xs : List ℕ) (end offset len : ℕ)
    → u16_at xs offset ≡ 0x0020
    → u16_at xs (offset + 2) ≡ len
    → offset + 4 ≤ end
    → offset + 4 + len ≤ length xs
    → find_address (suc fuel) xs end offset
      ≡ parse_xor_mapped_address (slice (offset + 4) (offset + 4 + len) xs)
unfolding find_address
finds_xor fuel xs end offset len k l within inside = ground arith

-- The head of an attribute that stands behind `before`.
kind_at :
    (before more : List ℕ) (a : Attribute)
    → IsU16 a.kind
    → u16_at (before ++ (attribute_bytes a ++ more)) (length before) ≡ a.kind
kind_at before more a small =
    omega (arith, u16_at-append before (attribute_bytes a ++ more) 0 (length before) (omega arith))

length_at :
    (before more : List ℕ) (a : Attribute)
    → length a.value < 65536
    → u16_at (before ++ (attribute_bytes a ++ more)) (length before + 2) ≡ length a.value
length_at before more a small =
    omega (arith, u16_at-append before (attribute_bytes a ++ more) 2 (length before + 2) refl)

length-attribute_bytes :
    (a : Attribute) → length (attribute_bytes a) ≡ 4 + (length a.value + length a.padding)
length-attribute_bytes a = omega (arith, length-append a.value a.padding)

value_at :
    (before more : List ℕ) (a : Attribute)
    → slice
        (length before + 4)
        (length before + 4 + length a.value)
        (before ++ (attribute_bytes a ++ more))
      ≡ a.value
value_at before more a =
    let head = u16_to_be a.kind ++ u16_to_be (length a.value) in
    ap (slice (length before + 4) (length before + 4 + length a.value)) (
      ap (λ r. before ++ (head ++ r)) (append_assoc a.value a.padding more)
      ∙ sym (append_assoc before head (a.value ++ (a.padding ++ more))))
    ∙ slice-append (before ++ head) a.value (a.padding ++ more) (length before + 4)
        (length before + 4 + length a.value) (omega (arith, length-append before head)) refl

-- Skipping what is foreign up to the address.
pub find_address-all_bytes :
    (foreign : List Attribute) (fuel : ℕ) (before more : List ℕ) (end ip port : ℕ)
    → All IsForeign foreign
    → IsU32 ip
    → IsU16 port
    → length foreign < fuel
    → end
      ≡ length (before ++ (all_bytes foreign ++ (attribute_bytes (xor_address ip port) ++ more)))
    → find_address fuel
        (before ++ (all_bytes foreign ++ (attribute_bytes (xor_address ip port) ++ more)))
        end
        (length before)
      ≡ ok (v4 ip, port)
find_address-all_bytes foreign zero before more end ip port ok_foreign small small_port enough e =
    absurd (omega arith)
find_address-all_bytes [] (suc fuel) before more end ip port ok_foreign small small_port enough e =
    let a = xor_address ip port in
    let total = length-append before (attribute_bytes a ++ more) in
    finds_xor fuel (before ++ (attribute_bytes a ++ more)) end (length before) 8
      (kind_at before more a (omega arith)) (length_at before more a (omega arith))
      (omega (arith, total, e)) (omega (arith, total))
    ∙ ap parse_xor_mapped_address (value_at before more a)
    ∙ xor_address_read ip port small small_port
find_address-all_bytes (a ∷ rest) (suc fuel) before more end ip port (foreign, others) small
      small_port enough e =
    let tail = attribute_bytes (xor_address ip port) ++ more in
    let after = all_bytes rest ++ tail in
    let regroup : before ++ ((attribute_bytes a ++ all_bytes rest) ++ tail)
        ≡ before ++ (attribute_bytes a ++ after) =
      ap (λ r. before ++ r) (append_assoc (attribute_bytes a) (all_bytes rest) tail) in
    let onward : before ++ (attribute_bytes a ++ after) ≡ (before ++ attribute_bytes a) ++ after =
      sym (append_assoc before (attribute_bytes a) after) in
    let total = length-append before (attribute_bytes a ++ after) in
    let own = length-append (attribute_bytes a) after in
    let size = length-attribute_bytes a in
    let e_here : end ≡ length (before ++ (attribute_bytes a ++ after)) = e ∙ ap length regroup in
    ap (λ xs. find_address (suc fuel) xs end (length before)) regroup
    ∙ skips fuel (before ++ (attribute_bytes a ++ after)) end (length before) a.kind
        (length a.value) (kind_at before after a foreign.0) (length_at before after a foreign.3)
        (omega (arith, total, own, size, e_here)) (omega (arith, total, own, size)) foreign.1
        foreign.2
    ∙ ap (λ o. find_address fuel (before ++ (attribute_bytes a ++ after)) end o)
        (omega (arith, length-append before (attribute_bytes a), size, foreign.4))
    ∙ ap (λ xs. find_address fuel xs end (length (before ++ attribute_bytes a))) onward
    ∙ find_address-all_bytes rest fuel (before ++ attribute_bytes a) more end ip port others small
        small_port (omega arith) (e_here ∙ ap length onward)
