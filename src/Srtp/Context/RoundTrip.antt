-- ===== src/Srtp/Context/RoundTrip.antt =====
-- SrtpContext::unprotect_rtp of src/srtp.rs undoes protect_rtp between two contexts with the same
-- session keys.
use rtp_engine.Base.{
  ℕ, ◌+◌, ◌-◌, ◌*◌, ◌%◌, ◌≤◌, ◌<◌, ◌≡◌, refl, sym, ap, ap₂, subst, ◌∙◌, true, false, ◌&&◌, some,
  List, [], ◌∷◌, ◌++◌, arith, leb, length, take, drop, byte_at, u16_at, u32_at, IsBytes,
  length-append, length-take, length-drop, u32_to_be, take-append, drop-append, take-append-drop,
  All-drop, get_or-append_left, get_or-take, IsByte,
}
use rtp_engine.Error.{ok}
use rtp_engine.Srtp.Window.{admits}
use rtp_engine.Srtp.Source.{estimate_roc}
use rtp_engine.Srtp.Crypto.{
  Crypto, build_iv, constant_time_eq, aes_128_cm_encrypt, compute_rtp_auth_tag,
}
use rtp_engine.Srtp.Crypto.Xor.{xor_bytes, xor_bytes_undo, length-xor_bytes}
use rtp_engine.Srtp.Context.{
  SrtpContext, rtp_header_len, encrypt_from, advance, position, is_none, max_rx_sources,
  protect_rtp, unprotect_rtp,
}
use rtp_engine.Srtp.Context.Sources.{lookup_state}

constant_time_eq_self : (xs : List ℕ) → constant_time_eq xs xs ≡ true
unfolding constant_time_eq
constant_time_eq_self [] = refl
constant_time_eq_self (x ∷ xs) = ground (arith, constant_time_eq_self xs)

-- The header length depends on the header alone.
rtp_header_len_bounds :
    (packet : List ℕ) (n : ℕ) → rtp_header_len packet ≡ some n → (12 ≤ n) × (n ≤ length packet)
unfolding rtp_header_len
rtp_header_len_bounds [] n e = cc
rtp_header_len_bounds (b ∷ rest) n e = ground arith

rtp_header_len_same :
    (p q : List ℕ) (n : ℕ)
    → rtp_header_len p ≡ some n
    → length q ≡ length p
    → ((i : ℕ) → i < n → byte_at q i ≡ byte_at p i)
    → rtp_header_len q ≡ some n
unfolding rtp_header_len
rtp_header_len_same [] q n e l same = cc
rtp_header_len_same (b ∷ p) [] n e l same = absurd (omega arith)
rtp_header_len_same (b ∷ p) (b' ∷ q) n e l same =
    let at = 12 + b % 16 * 4 in
    ground (arith, same 0, same (at + 2), same (at + 3), same (at + 2 + 1))

module _ (c : Crypto) where
  -- Encryption in place keeps the length and the bytes before its start.
  length-encrypt_from :
      (n : ℕ) (key iv bytes : List ℕ) → length (encrypt_from c n key iv bytes) ≡ length bytes
  unfolding encrypt_from aes_128_cm_encrypt
  length-encrypt_from n key iv bytes = omega (
    arith,
    length-append (take n bytes)
        (xor_bytes (drop n bytes) (c.keystream key iv (length (drop n bytes)))),
    length-xor_bytes (drop n bytes) (c.keystream key iv (length (drop n bytes))),
    length-take n bytes,
    length-drop n bytes,
  )

  byte_at-encrypt_from :
      (n : ℕ) (key iv bytes : List ℕ) (i : ℕ)
      → i < n
      → n ≤ length bytes
      → byte_at (encrypt_from c n key iv bytes) i ≡ byte_at bytes i
  unfolding encrypt_from
  byte_at-encrypt_from n key iv bytes i h l =
      get_or-append_left (take n bytes) _ i 0 (omega (arith, length-take n bytes))
      ∙ get_or-take n bytes i 0 h

  encrypt_from_undo :
      (n : ℕ) (key iv bytes : List ℕ)
      → IsBytes bytes
      → n ≤ length bytes
      → encrypt_from c n key iv (encrypt_from c n key iv bytes) ≡ bytes
  unfolding encrypt_from aes_128_cm_encrypt
  encrypt_from_undo n key iv bytes b h =
      let e : n ≡ length (take n bytes) = omega (arith, length-take n bytes) in
      let ks = c.keystream key iv (length (drop n bytes)) in
      ap₂ (λ (x y : List ℕ). x ++ xor_bytes y (c.keystream key iv (length y)))
        (take-append (take n bytes) (xor_bytes (drop n bytes) ks) n e)
        (drop-append (take n bytes) (xor_bytes (drop n bytes) ks) n e)
      ∙ ap
          (λ (k : ℕ).
            take n bytes ++ xor_bytes (xor_bytes (drop n bytes) ks) (c.keystream key iv k))
          (length-xor_bytes (drop n bytes) ks)
      ∙ ap (λ (y : List ℕ). take n bytes ++ y)
          (xor_bytes_undo (drop n bytes) ks (All-drop IsByte n bytes b)
            (c.keystream-IsBytes key iv (length (drop n bytes))))
      ∙ take-append-drop n bytes

  length-tag :
      (key portion : List ℕ) (roc : ℕ) → length (compute_rtp_auth_tag c key portion roc) ≡ 10
  unfolding compute_rtp_auth_tag
  length-tag key portion roc = omega (
    arith,
    length-take 10 (c.hmac_sha1 key (portion ++ u32_to_be roc)),
    c.length-hmac_sha1 key (portion ++ u32_to_be roc),
  )

  -- What the receiver must know to take a packet of the source `ssrc` with the number `seq`.
  pub record Ready (r : SrtpContext) (ssrc seq roc : ℕ) : Type 0 where
    pub room : (is_none (position ssrc r.rx) && leb max_rx_sources (length r.rx)) ≡ false
    pub estimated : estimate_roc (lookup_state r.rx ssrc) seq ≡ roc
    pub admitted : admits (lookup_state r.rx ssrc).window (roc * 65536 + seq) ≡ true

  -- A packet that carries the tag of its first part opens to that part decrypted.
  unprotect_rtp-tagged :
      (r : SrtpContext) (n roc : ℕ) (portion : List ℕ)
      → rtp_header_len portion ≡ some n
      → Ready r (u32_at portion 8) (u16_at portion 2) roc
      → (unprotect_rtp c r (portion ++ compute_rtp_auth_tag c r.session_auth_key portion roc)).1
        ≡ ok (
            encrypt_from c n r.session_key
              (build_iv r.session_salt (u32_at portion 8) roc (u16_at portion 2))
              portion)
  unfolding unprotect_rtp lookup_state
  unprotect_rtp-tagged r n roc portion e d =
      let tag = compute_rtp_auth_tag c r.session_auth_key portion roc in
      let k : length (portion ++ tag) - 10 ≡ length portion =
        omega (arith, length-append portion tag, length-tag r.session_auth_key portion roc) in
      ground (
        arith,
        length-append portion tag,
        length-tag r.session_auth_key portion roc,
        rtp_header_len_bounds portion n e,
        take-append portion tag (length (portion ++ tag) - 10) k,
        drop-append portion tag (length (portion ++ tag) - 10) k,
        constant_time_eq_self tag,
      )

  -- The two contexts hold the same session keys for RTP.
  pub record SameKeys (s r : SrtpContext) : Type 0 where
    pub key : r.session_key ≡ s.session_key
    pub salt : r.session_salt ≡ s.session_salt
    pub auth_key : r.session_auth_key ≡ s.session_auth_key

  -- The rollover counter that the next packet is sent with.
  abbrev pub send_roc : SrtpContext → List ℕ → ℕ
  send_roc s packet = (advance s.tx (u16_at packet 2)).roc

  abbrev sealed_portion : SrtpContext → ℕ → List ℕ → List ℕ
  sealed_portion s n packet =
      encrypt_from c n s.session_key
        (build_iv s.session_salt (u32_at packet 8) (send_roc s packet) (u16_at packet 2)) packet

  protect_rtp-sealed :
      (s : SrtpContext) (packet : List ℕ) (n : ℕ)
      → rtp_header_len packet ≡ some n
      → (protect_rtp c s packet).1
        ≡ ok (
            sealed_portion s n packet
            ++ compute_rtp_auth_tag c s.session_auth_key
                (sealed_portion s n packet)
                (send_roc s packet))
  unfolding protect_rtp
  protect_rtp-sealed s packet n e = ground (arith, rtp_header_len_bounds packet n e)

  -- The sealed portion has the header of the packet.
  sealed_header :
      (s : SrtpContext) (packet : List ℕ) (n : ℕ)
      → rtp_header_len packet ≡ some n
      → (rtp_header_len (sealed_portion s n packet) ≡ some n)
        × (u16_at (sealed_portion s n packet) 2 ≡ u16_at packet 2)
        × (u32_at (sealed_portion s n packet) 8 ≡ u32_at packet 8)
  sealed_header s packet n e =
      let b = rtp_header_len_bounds packet n e in
      let same = λ (i : ℕ) (h : i < n).
        byte_at-encrypt_from n s.session_key
          (build_iv s.session_salt (u32_at packet 8) (send_roc s packet) (u16_at packet 2)) packet i
          h b.1 in
      (
        rtp_header_len_same packet (sealed_portion s n packet) n e
            (length-encrypt_from n _ _ packet) same,
        omega (arith, same 2 (omega arith), same 3 (omega arith)),
        omega (
          arith,
          same 8 (omega arith),
          same 9 (omega arith),
          same 10 (omega arith),
          same 11 (omega arith),
        ),
      )

  sealed_opens :
      (s r : SrtpContext) (packet : List ℕ) (n : ℕ)
      → IsBytes packet
      → rtp_header_len packet ≡ some n
      → SameKeys s r
      → Ready r (u32_at packet 8) (u16_at packet 2) (send_roc s packet)
      → let portion = sealed_portion s n packet in
        (unprotect_rtp c r
          (portion ++ compute_rtp_auth_tag c r.session_auth_key portion (send_roc s packet))).1
        ≡ ok packet
  sealed_opens s r packet n b e k d =
      let h = sealed_header s packet n e in
      let roc = send_roc s packet in
      let iv = build_iv s.session_salt (u32_at packet 8) roc (u16_at packet 2) in
      let ready =
        subst (λ x. Ready r x (u16_at (sealed_portion s n packet) 2) roc) (sym h.2)
          (subst (λ x. Ready r (u32_at packet 8) x roc) (sym h.1) d) in
      unprotect_rtp-tagged r n roc (sealed_portion s n packet) h.0 ready
      ∙ ap
          (λ x. ok (
            encrypt_from c n r.session_key
              (build_iv r.session_salt x roc (u16_at (sealed_portion s n packet) 2))
              (sealed_portion s n packet)))
          h.2
      ∙ ap
          (λ x. ok (
            encrypt_from c n r.session_key (build_iv r.session_salt (u32_at packet 8) roc x)
              (sealed_portion s n packet)))
          h.1
      ∙ ap₂
          (λ x y. ok (
            encrypt_from c n x (build_iv y (u32_at packet 8) roc (u16_at packet 2))
              (sealed_portion s n packet)))
          k.key k.salt
      ∙ ap ok (encrypt_from_undo n s.session_key iv packet b (rtp_header_len_bounds packet n e).1)

  -- Every packet whose header is complete is protected, and a receiver with the same session keys
  -- that has room for its source, estimates its rollover counter and admits its index gets the
  -- packet back.
  pub unprotect-protect :
      (s r : SrtpContext) (packet : List ℕ) (n : ℕ)
      → IsBytes packet
      → rtp_header_len packet ≡ some n
      → SameKeys s r
      → Ready r (u32_at packet 8) (u16_at packet 2) (send_roc s packet)
      → (sealed : List ℕ) × ((protect_rtp c s packet).1 ≡ ok sealed)
        × ((unprotect_rtp c r sealed).1 ≡ ok packet)
  unprotect-protect s r packet n b e k d =
      let portion = sealed_portion s n packet in
      (
        portion ++ compute_rtp_auth_tag c s.session_auth_key portion (send_roc s packet),
        protect_rtp-sealed s packet n e,
        subst
            (λ key.
              (unprotect_rtp c r
                (portion ++ compute_rtp_auth_tag c key portion (send_roc s packet))).1
              ≡ ok packet)
            k.auth_key (sealed_opens s r packet n b e k d),
      )
