-- ===== src/Srtp/Context/Tests.antt =====
-- The context of src/srtp.rs with a toy keystream and authentication code, and its theorems at
-- concrete inputs.
use rtp_engine.Base.{
  ℕ, ◌+◌, ◌%◌, ◌≡◌, ◌≢◌, refl, List, [], ◌∷◌, ◌++◌, arith, replicate, take, u16_to_be,
  u16_from_be-to_be,
}
use rtp_engine.Error.{ok, srtp}
use rtp_engine.Srtp.Window.{admits, accept}
use rtp_engine.Srtp.Source
use rtp_engine.Srtp.Source.{idle, estimate_roc}
use rtp_engine.Srtp.Crypto.{build_iv, constant_time_eq, aes_128_cm_encrypt, compute_rtp_auth_tag}
use rtp_engine.Srtp.Crypto.Xor.{xor_bytes}
use rtp_engine.Srtp.Crypto.Toy.{toy, toy_keystream, toy_hmac}
use rtp_engine.Srtp.Context.{
  SrtpContext, rtp_header_len, advance, position, state_at, remember_source, moved, protect_rtp,
  unprotect_rtp,
}
use rtp_engine.Srtp.Context.Sources.{lookup_state}
use rtp_engine.Srtp.Context.Keeps.{unprotects_rtp, refused_keeps_context}
use rtp_engine.Srtp.Context.RoundTrip.{Ready, unprotect-protect}
use rtp_engine.Srtp.Context.Replay.{Once, accept_all, accepts-Once}
use rtp_engine.Srtp.Context.CounterBlocks.{IsStream, EncryptedUnder, counter_blocks_unique}

abbrev blank : SrtpContext
blank = record {
  session_key = replicate 16 1;
  session_salt = replicate 14 2;
  session_auth_key = replicate 20 3;
  rtcp_session_key = replicate 16 4;
  rtcp_session_salt = replicate 14 5;
  rtcp_session_auth_key = replicate 20 6;
  tx = idle;
  rx = [];
  srtcp_index = 0;
  rtcp_rx = [];
}

abbrev plain : List ℕ
plain =
    0x80 ∷ 0 ∷ 0 ∷ 1 ∷ 0 ∷ 0 ∷ 0 ∷ 0xa0 ∷ 0x12 ∷ 0x34 ∷ 0x56 ∷ 0x78 ∷ 0xde ∷ 0xad ∷ 0xbe ∷ 0xef ∷ []

-- `plain` as a blank context protects it.
abbrev guarded : List ℕ
guarded =
    0x80
    ∷ 0
    ∷ 0
    ∷ 1
    ∷ 0
    ∷ 0
    ∷ 0
    ∷ 0xa0
    ∷ 0x12
    ∷ 0x34
    ∷ 0x56
    ∷ 0x78
    ∷ 132
    ∷ 247
    ∷ 228
    ∷ 181
    ∷ 20
    ∷ replicate 9 25

plain-guarded : (protect_rtp toy blank plain).1 ≡ ok guarded
unfolding protect_rtp rtp_header_len advance build_iv aes_128_cm_encrypt xor_bytes
    compute_rtp_auth_tag toy_keystream toy_hmac
plain-guarded = refl

guarded_opens : (unprotect_rtp toy blank guarded).1 ≡ ok plain
unfolding unprotect_rtp rtp_header_len position state_at Source.new estimate_roc build_iv
    aes_128_cm_encrypt xor_bytes compute_rtp_auth_tag constant_time_eq admits accept remember_source
    moved toy_keystream toy_hmac
guarded_opens = refl

refused_keeps_context_example : (unprotect_rtp toy blank plain).0 ≡ blank
unfolding unprotect_rtp
refused_keeps_context_example = refused_keeps_context toy unprotects_rtp blank plain srtp refl

accepts-Once_example : Once (accept_all toy blank [] (guarded ∷ guarded ∷ plain ∷ []))
accepts-Once_example = accepts-Once toy blank (guarded ∷ guarded ∷ plain ∷ []) refl

blank-Ready : Ready toy blank 0x12345678 1 0
unfolding position lookup_state Source.new estimate_roc admits
blank-Ready = record { room = refl; estimated = refl; admitted = refl }

unprotect-protect_example :
    (sealed : List ℕ) × ((protect_rtp toy blank plain).1 ≡ ok sealed)
    × ((unprotect_rtp toy blank sealed).1 ≡ ok plain)
unfolding rtp_header_len advance
unprotect-protect_example =
    unprotect-protect toy blank blank plain 12 (omega arith) refl
      (record { key = refl; salt = refl; auth_key = refl }) blank-Ready

-- Headers alone, numbered from 65535 on.
abbrev headers : ℕ → List ℕ
headers n = 0x80 ∷ 0 ∷ (u16_to_be ((65535 + n) % 65536) ++ (0 ∷ 0 ∷ 0 ∷ 0 ∷ 0 ∷ 0 ∷ 0 ∷ 7 ∷ []))

headers-IsStream : IsStream toy headers 7 65535
unfolding rtp_header_len
headers-IsStream n = (refl, u16_from_be-to_be ((65535 + n) % 65536) (omega arith), refl, (12, refl))

counter_blocks_unique_example :
    (iv : List ℕ) × (later : List ℕ) × EncryptedUnder toy headers blank 0 iv
    × EncryptedUnder toy headers blank 65536 later
    × (take 14 iv ≢ take 14 later)
counter_blocks_unique_example =
    counter_blocks_unique toy headers blank 7 65535 0 65536 refl (ground arith) (omega arith)
      (omega arith) (omega arith) headers-IsStream
