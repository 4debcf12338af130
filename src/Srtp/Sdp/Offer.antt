-- ===== src/Srtp/Sdp/Offer.antt =====
-- A key that one side of a call offers reaches the other (src/srtp.rs).
use rtp_engine.Base.{
  ℕ, ◌≡◌, refl, ap, sym, ◌∙◌, false, Option, none, some, List, [], ◌∷◌, ◌++◌, All, append_assoc,
  take, drop, length, length-drop, take_all, ltb, arith,
}
use rtp_engine.Base.Text.{
  codes, lines, is_whitespace, trim, strip_prefix, split_once, splitn, same_text,
}
use rtp_engine.Base.Text.Laws.{
  after_lines, Without, Solid, split_whole, ended, lines-ended, trim-line, trim-Solid,
}
use rtp_engine.Error.{Result, ok, err, ◌>>=◌}
use rtp_engine.Srtp.Context
use rtp_engine.Srtp.Crypto.{Crypto}
use rtp_engine.Srtp.Context.{SrtpContext, from_decoded}
use rtp_engine.Srtp.Sdp.{
  inline_key, key_of_parts, key_of_line, first_key, parse_sdp_crypto, build_sdp_crypto_line,
  generate, from_base64,
}

-- A key that can stand in the attribute.
abbrev pub IsKey : List ℕ → Type 0
IsKey key = Solid key × Without b'\n' key × Without b'|' key

-- A line of a session description that is no `a=crypto`.
abbrev pub IsOther : List ℕ → Type 0
IsOther line = Without b'\n' line × (strip_prefix (codes "a=crypto:") (trim line) ≡ none)

first_key-others :
    (others : List (List ℕ)) (text : List ℕ)
    → All IsOther others
    → first_key (lines (after_lines others text)) ≡ first_key (lines text)
unfolding first_key key_of_line
first_key-others [] text other = refl
first_key-others (line ∷ others) text ((without, strange), other) =
    let here : key_of_line line ≡ none = simp (key_of_line, strange) in
    ap first_key (lines-ended line (after_lines others text) without)
    ∙ simp (first_key, here) (first_key-others others text other)

abbrev attribute : List ℕ → List ℕ
attribute key = codes "a=crypto:1 AES_CM_128_HMAC_SHA1_80 inline:" ++ key

trim-attribute : (key : List ℕ) → Solid key → trim (attribute key) ≡ attribute key
unfolding is_whitespace
trim-attribute key solid =
    trim-line b'a' (codes "=crypto:1 AES_CM_128_HMAC_SHA1_80 inline") b':' key refl (refl, solid)

key_of_line-attribute : (key : List ℕ) → IsKey key → key_of_line (attribute key) ≡ some key
unfolding key_of_line key_of_parts inline_key strip_prefix splitn split_once same_text
key_of_line-attribute key (solid, line, bar) =
    let found : List ℕ → Option (List ℕ) = λ trimmed.
      elim (strip_prefix (codes "a=crypto:") trimmed) [
        | none ↦ none
        | some rest ↦ key_of_parts (splitn 3 b' ' rest)
      ] in
    ap found (trim-attribute key solid) ∙ ap (λ s. some s.0) (split_whole b'|' key bar)

Without-attribute : (key : List ℕ) → Without b'\n' key → Without b'\n' (attribute key)
Without-attribute key without = search (without)

-- An attribute is found behind other lines and before any text.
parse_sdp_crypto-build_sdp_crypto_line :
    (others : List (List ℕ)) (key text : List ℕ)
    → All IsOther others
    → IsKey key
    → parse_sdp_crypto (after_lines others (build_sdp_crypto_line key ++ text)) ≡ some key
unfolding parse_sdp_crypto first_key build_sdp_crypto_line
parse_sdp_crypto-build_sdp_crypto_line others key text other (solid, without, bar) =
    let prefix = codes "a=crypto:1 AES_CM_128_HMAC_SHA1_80 inline:" in
    let here = key_of_line-attribute key (solid, without, bar) in
    let line_end : List ℕ = b'\r' ∷ b'\n' ∷ [] in
    let laid_out : build_sdp_crypto_line key ++ text ≡ ended (attribute key) text =
      ap (λ t. prefix ++ t) (append_assoc key line_end text) in
    first_key-others others (build_sdp_crypto_line key ++ text) other
    ∙ ap (λ t. first_key (lines t)) laid_out
    ∙ ap first_key (lines-ended (attribute key) text (Without-attribute key without))
    ∙ simp (first_key, here)

with_key_ok :
    (r : Result SrtpContext) (ctx : SrtpContext) (key encoded : List ℕ)
    → ◌>>=◌ {B = SrtpContext × List ℕ} r (λ context. ok (context, encoded)) ≡ ok (ctx, key)
    → (key ≡ encoded) × (r ≡ ok ctx)
with_key_ok (ok context) ctx key encoded made =
    let pair : Result (SrtpContext × List ℕ) → SrtpContext × List ℕ =
      λ r. elim r [ ok p ↦ p | err _ ↦ (context, encoded) ] in
    let same = ap pair made in (sym (ap (λ p. p.1) same), ap (λ p. ok p.0) same)
with_key_ok (err cause) ctx key encoded made = cc

material_decoded :
    (c : Crypto) (material : List ℕ) (result : Result SrtpContext)
    → length material ≡ 30
    → Context.new c (take 16 material) (drop 16 material) ≡ result
    → from_decoded c (some material) ≡ result
unfolding from_decoded
material_decoded c material result size made =
    let enough : ltb (length material) 30 ≡ false = ground (arith, size) in
    let all : take 14 (drop 16 material) ≡ drop 16 material =
      take_all (drop 16 material) 14 (omega (arith, size, length-drop 16 material)) in
    simp (from_decoded, enough, all) made

-- A party that generates a key and offers it, in a session description with no `a=crypto` line
-- before it: the other party parses the key and, where its base64 decoder gives back what was
-- encoded and the encoded key has no white space and no `|`, makes of it the context that the first
-- one has.
pub offered_key_read_back :
    (c : Crypto) (encode : List ℕ → List ℕ) (decode : List ℕ → Option (List ℕ))
    (material key text : List ℕ) (ctx : SrtpContext) (others : List (List ℕ))
    → length material ≡ 30
    → generate c encode material ≡ ok (ctx, key)
    → decode (encode material) ≡ some material
    → IsKey (encode material)
    → All IsOther others
    → (parse_sdp_crypto (after_lines others (build_sdp_crypto_line key ++ text)) ≡ some key)
      × (from_base64 c decode key ≡ ok ctx)
unfolding generate from_base64
offered_key_read_back c encode decode material key text ctx others size made decoded fine other =
    let (same, built) =
      with_key_ok (Context.new c (take 16 material) (drop 16 material)) ctx key (encode material)
        made in
    let encoded = encode material in
    let trimmed : trim encoded ≡ encoded = trim-Solid encoded fine.0 in
    (
      ap (λ k. parse_sdp_crypto (after_lines others (build_sdp_crypto_line k ++ text))) same
          ∙ parse_sdp_crypto-build_sdp_crypto_line others encoded text other fine
          ∙ ap some (sym same),
      ap (λ k. from_decoded c (decode (trim k))) same
          ∙ ap (λ k. from_decoded c (decode k)) trimmed
          ∙ ap (from_decoded c) decoded
          ∙ material_decoded c material (ok ctx) size built,
    )
