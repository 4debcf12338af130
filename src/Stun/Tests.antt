-- ===== src/Stun/Tests.antt =====
-- A response with a SOFTWARE attribute before the address, and 192.0.2.1:32853.
use rtp_engine.Base.{
  ℕ, ◌+◌, ◌≤◌, ◌≡◌, refl, List, [], ◌∷◌, ◌++◌, arith, length, slice, u16_at, u32_at,
}
use rtp_engine.Base.Net.{v4}
use rtp_engine.Error.{ok, err, stun}
use rtp_engine.Stun.{parse_xor_mapped_address, build_binding_request, parse_binding_response}
use rtp_engine.Stun.Laws.{Attribute, all_bytes, attribute_bytes, xor_address, response}
use rtp_engine.Stun.Response.{parse-response, parse_binding_response_sound}

abbrev txn : List ℕ
txn = 1 ∷ 2 ∷ 3 ∷ 4 ∷ 5 ∷ 6 ∷ 7 ∷ 8 ∷ 9 ∷ 10 ∷ 11 ∷ 12 ∷ []

abbrev software : Attribute
software = record { kind = 0x8022; value = 65 ∷ 66 ∷ 67 ∷ []; padding = 0 ∷ [] }

abbrev received : List ℕ
received =
    response txn
      (all_bytes (software ∷ []) ++ (attribute_bytes (xor_address 0xC0000201 32853) ++ []))

request_refused : parse_binding_response (build_binding_request txn) txn ≡ err stun
unfolding build_binding_request parse_binding_response
request_refused = refl

parse-response_example : parse_binding_response received txn ≡ ok (v4 0xC0000201, 32853)
parse-response_example =
    parse-response txn (software ∷ []) [] 0xC0000201 32853 refl
      ((omega arith, omega arith, omega arith, omega arith, refl), tt) (omega arith) (omega arith)
      (omega arith)

parse_binding_response_sound_example :
    (20 + u16_at received 2 ≤ length received)
    × (u16_at received 0 ≡ 0x0101)
    × (u32_at received 4 ≡ 0x2112A442)
    × (slice 8 20 received ≡ txn)
unfolding parse_binding_response parse_xor_mapped_address
parse_binding_response_sound_example =
    parse_binding_response_sound received txn (v4 0xC0000201) 32853 refl
