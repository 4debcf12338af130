-- ===== src/Srtp/Context/CounterBlocks.antt =====
-- The initial counter blocks that SrtpContext::protect_rtp of src/srtp.rs encrypts under.
use rtp_engine.Base.{
  ℕ, zero, suc, ◌+◌, ◌*◌, ◌%◌, ◌<◌, ◌≡◌, ◌≢◌, refl, ap, sym, ◌∙◌, false, some, List, [], ◌∷◌, ◌++◌,
  arith, take, drop, take-append, length, ltb, u16_at, u32_at, IsBytes, u16_to_be, u32_to_be,
  u16_from_be-to_be, u32_from_be-to_be,
}
use rtp_engine.Error.{ok}
use rtp_engine.Srtp.Source.{SendState, idle}
use rtp_engine.Srtp.Crypto.{Crypto, build_iv, salted, aes_128_cm_encrypt, compute_rtp_auth_tag}
use rtp_engine.Srtp.Crypto.Xor.{xor_bytes, length-xor_bytes, xor_bytes_undo}
use rtp_engine.Srtp.Context.{
  SrtpContext, protect_rtp, seal_rtp, encrypt_from, advance, rtp_header_len,
}
use rtp_engine.Srtp.Context.Sending.{send_run, send_run-Stands, index_sent_unique}

-- The block before the salt is added in.
abbrev unsalted : ℕ → ℕ → ℕ → List ℕ
unsalted ssrc roc seq = 0 ∷ 0 ∷ 0 ∷ 0 ∷ (u32_to_be ssrc ++ (u32_to_be roc ++ u16_to_be seq))

unsalted-IsBytes : (ssrc roc seq : ℕ) → IsBytes (unsalted ssrc roc seq)
unsalted-IsBytes ssrc roc seq = ground arith

-- The first 14 bytes of a block, the salt taken off again.
unsalt :
    (salt : List ℕ) (ssrc roc seq : ℕ)
    → IsBytes salt
    → xor_bytes (take 14 (build_iv salt ssrc roc seq)) salt ≡ unsalted ssrc roc seq
unfolding build_iv salted
unsalt salt ssrc roc seq bytes =
    let block = unsalted ssrc roc seq in
    ap (λ l. xor_bytes l salt)
      (take-append (xor_bytes block salt) (0 ∷ 0 ∷ []) 14 (sym (length-xor_bytes block salt)))
    ∙ xor_bytes_undo block salt (unsalted-IsBytes ssrc roc seq) bytes

-- Blocks with the same first 14 bytes are of one index.
block_index :
    (salt : List ℕ) (ssrc roc roc' seq seq' : ℕ)
    → IsBytes salt
    → roc < 4294967296
    → roc' < 4294967296
    → seq < 65536
    → seq' < 65536
    → take 14 (build_iv salt ssrc roc seq) ≡ take 14 (build_iv salt ssrc roc' seq')
    → roc * 65536 + seq ≡ roc' * 65536 + seq'
block_index salt ssrc roc roc' seq seq' bytes h1 h2 h3 h4 e =
    let same : unsalted ssrc roc seq ≡ unsalted ssrc roc' seq' =
      sym (unsalt salt ssrc roc seq bytes)
      ∙ ap (λ l. xor_bytes l salt) e
      ∙ unsalt salt ssrc roc' seq' bytes in
    let high : roc ≡ roc' =
      sym (u32_from_be-to_be roc h1) ∙ ap (λ l. u32_at l 8) same ∙ u32_from_be-to_be roc' h2 in
    let low : seq ≡ seq' =
      sym (u16_from_be-to_be seq h3) ∙ ap (λ l. u16_at l 12) same ∙ u16_from_be-to_be seq' h4 in
    omega (arith, high, low)

-- The block of the packet that the send state stands at.
abbrev block_of : List ℕ → ℕ → SendState → List ℕ
block_of salt ssrc tx = build_iv salt ssrc tx.roc tx.s_l

-- Blocks of a sender at two of its packets.
blocks_differ :
    (salt : List ℕ) (ssrc first j k : ℕ)
    → IsBytes salt
    → first < 65536
    → first + k < 281474976710656
    → j < k
    → take 14 (block_of salt ssrc (send_run first j))
      ≢ take 14 (block_of salt ssrc (send_run first k))
blocks_differ salt ssrc first j k bytes small limit before same =
    let a = send_run-Stands first j small (omega arith) in
    let b = send_run-Stands first k small limit in
    index_sent_unique first j k small limit before (
      block_index salt ssrc _ _ _ _ bytes (omega (arith, a.roc_is)) (omega (arith, b.roc_is))
        (omega (arith, a.last_is)) (omega (arith, b.last_is)) same)

module _ (c : Crypto) (packets : ℕ → List ℕ) where
  -- Packets with a complete header of their own, of one source and numbered consecutively.
  abbrev pub IsStream : ℕ → ℕ → Type 0
  IsStream ssrc first =
      (n : ℕ)
      → (ltb (length (packets n)) 12 ≡ false)
        × (u16_at (packets n) 2 ≡ (first + n) % 65536)
        × (u32_at (packets n) 8 ≡ ssrc)
        × ((header_len : ℕ) × (rtp_header_len (packets n) ≡ some header_len))

  -- The context once that many of the packets are protected.
  unfoldable pub context_after : SrtpContext → ℕ → SrtpContext
  context_after ctx zero = ctx
  context_after ctx (suc n) = (protect_rtp c (context_after ctx n) (packets n)).0

  -- Packet number `n` is protected, its payload encrypted under that initial counter block.
  abbrev pub EncryptedUnder : SrtpContext → ℕ → List ℕ → Type 0
  EncryptedUnder ctx n iv =
      (header_len : ℕ) × (tag : List ℕ) × ((protect_rtp c (context_after ctx n) (packets n)).1
        ≡ ok (
            (take header_len (packets n)
              ++ aes_128_cm_encrypt c ctx.session_key iv (drop header_len (packets n)))
            ++ tag))

  -- What protect_rtp leaves and makes of packet number `n`.
  abbrev Seals : SrtpContext → ℕ → ℕ → ℕ → Type 0
  Seals ctx ssrc first n =
      (header_len : ℕ) × (tag : List ℕ) × (protect_rtp c (context_after ctx n) (packets n) ≡ (
        record ctx { tx = send_run first n },
        ok (
            (take header_len (packets n)
              ++ aes_128_cm_encrypt c ctx.session_key
                  (block_of ctx.session_salt ssrc (send_run first n)) (drop header_len (packets n)))
            ++ tag),
      ))

  packet_sealed :
      (ctx : SrtpContext) (ssrc first n : ℕ) (before : SendState)
      → first < 65536
      → first + n < 281474976710656
      → IsStream ssrc first
      → context_after ctx n ≡ record ctx { tx = before }
      → advance before ((first + n) % 65536) ≡ send_run first n
      → Seals ctx ssrc first n
  unfolding protect_rtp seal_rtp encrypt_from
  packet_sealed ctx ssrc first n before small limit stream stands moves =
      let (long, seq, source, (header_len, header)) = stream n in
      let tx = send_run first n in
      let last = send_run-Stands first n small limit in
      let iv = block_of ctx.session_salt ssrc tx in
      let output =
        take header_len (packets n)
        ++ aes_128_cm_encrypt c ctx.session_key iv (drop header_len (packets n)) in
      (
        header_len,
        compute_rtp_auth_tag c ctx.session_auth_key output tx.roc,
        ap (λ x. protect_rtp c x (packets n)) stands
            ∙ simp (
              protect_rtp, seal_rtp, encrypt_from, long, header, seq, source, moves, last.last_is,
            ),
      )

  stream_sealed :
      (ctx : SrtpContext) (ssrc first n : ℕ)
      → ctx.tx ≡ idle
      → first < 65536
      → first + n < 281474976710656
      → IsStream ssrc first
      → Seals ctx ssrc first n
  unfolding context_after send_run
  stream_sealed ctx ssrc first zero fresh small limit stream =
      packet_sealed ctx ssrc first zero ctx.tx small limit stream refl
        (ap (λ t. advance t ((first + 0) % 65536)) fresh ∙ ap (advance idle) (omega arith))
  stream_sealed ctx ssrc first (suc n) fresh small limit stream =
      let (header_len, tag, e) =
        stream_sealed ctx ssrc first n fresh small (omega (arith, limit)) stream in
      packet_sealed ctx ssrc first (suc n) (send_run first n) small limit stream (ap (λ r. r.0) e)
        refl

  -- A context that has sent nothing protects packets of one source with consecutive sequence
  -- numbers, from any first number. While the number, counted without wrap, is below 2 ^ 48, no two
  -- of them are encrypted under initial counter blocks with the same first 14 bytes: all but the two
  -- that count the blocks of a packet.
  pub counter_blocks_unique :
      (ctx : SrtpContext) (ssrc first j k : ℕ)
      → ctx.tx ≡ idle
      → IsBytes ctx.session_salt
      → first < 65536
      → first + k < 281474976710656
      → j < k
      → IsStream ssrc first
      → (iv : List ℕ) × (later : List ℕ) × EncryptedUnder ctx j iv
        × EncryptedUnder ctx k later
        × (take 14 iv ≢ take 14 later)
  counter_blocks_unique ctx ssrc first j k fresh salt small limit before stream =
      let (len, tag, e) =
        stream_sealed ctx ssrc first j fresh small (omega (arith, limit, before)) stream in
      let (len', tag', e') = stream_sealed ctx ssrc first k fresh small limit stream in
      (
        block_of ctx.session_salt ssrc (send_run first j),
        block_of ctx.session_salt ssrc (send_run first k),
        (len, tag, ap (λ r. r.1) e),
        (len', tag', ap (λ r. r.1) e'),
        blocks_differ ctx.session_salt ssrc first j k salt small limit before,
      )
