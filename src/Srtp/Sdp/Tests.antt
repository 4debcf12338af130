-- ===== src/Srtp/Sdp/Tests.antt =====
-- A key of thirty bytes as letters, in a session description of three lines.
use rtp_engine.Base.{ℕ, ◌+◌, ◌-◌, ◌≡◌, refl, Option, some, List, [], ◌∷◌, ◌++◌, replicate}
use rtp_engine.Base.Text.{codes, is_whitespace, trim, strip_prefix, lines, splitn, same_text}
use rtp_engine.Base.Text.Laws.{after_lines}
use rtp_engine.Error.{Result, ok, err}
use rtp_engine.Srtp.Crypto.{derive_session_key, derive_session_salt, derive_session_auth_key}
use rtp_engine.Srtp.Crypto.Toy.{toy}
use rtp_engine.Srtp.Source.{idle}
use rtp_engine.Srtp.Context.{SrtpContext}
use rtp_engine.Srtp.Context
use rtp_engine.Srtp.Sdp.{
  parse_sdp_crypto, build_sdp_crypto_line, generate, from_base64, first_key, key_of_line,
  key_of_parts, inline_key,
}
use rtp_engine.Srtp.Sdp.Offer.{offered_key_read_back}

abbrev letters : List ℕ → List ℕ
letters [] = []
letters (b ∷ bytes) = (b + 65) ∷ letters bytes

abbrev bytes_of : List ℕ → List ℕ
bytes_of [] = []
bytes_of (c ∷ text) = (c - 65) ∷ bytes_of text

abbrev decode : List ℕ → Option (List ℕ)
decode text = some (bytes_of text)

abbrev material : List ℕ
material = replicate 16 1 ++ replicate 14 2

abbrev made : Result SrtpContext → SrtpContext
made (ok ctx) = ctx
made (err _) = record {
  session_key = [];
  session_salt = [];
  session_auth_key = [];
  rtcp_session_key = [];
  rtcp_session_salt = [];
  rtcp_session_auth_key = [];
  tx = idle;
  rx = [];
  srtcp_index = 0;
  rtcp_rx = [];
}

context : SrtpContext
context = made (Context.new toy (replicate 16 1) (replicate 14 2))

abbrev other_lines : List (List ℕ)
other_lines = codes "v=0" ∷ codes "m=audio 4000 RTP/SAVP 0" ∷ []

lifetime_dropped :
    parse_sdp_crypto (codes "a=crypto:1 AES_CM_128_HMAC_SHA1_80 inline:AbC|2^20\n")
    ≡ some (codes "AbC")
unfolding parse_sdp_crypto first_key key_of_line key_of_parts inline_key lines strip_prefix trim
    splitn same_text
lifetime_dropped = refl

offered_key_read_back_example :
    (parse_sdp_crypto (after_lines other_lines (build_sdp_crypto_line (letters material) ++ []))
      ≡ some (letters material))
    × (from_base64 toy decode (letters material) ≡ ok context)
unfolding context generate is_whitespace trim strip_prefix Context.new derive_session_key
    derive_session_salt derive_session_auth_key
offered_key_read_back_example =
    offered_key_read_back toy letters decode material (letters material) [] context other_lines refl
      refl refl (search) (search)
