-- ===== src/Srtp/Context/Opening.antt =====
-- What SrtpContext::unprotect_rtp of src/srtp.rs has checked and stored when it accepts a packet.
use rtp_engine.Base.{ℕ, ◌+◌, ◌-◌, ◌*◌, ◌≡◌, true, List, arith, length, take, drop, u16_at, u32_at}
use rtp_engine.Error.{ok}
use rtp_engine.Srtp.Window.{admits}
use rtp_engine.Srtp.Source.{RecvState, estimate_roc}
use rtp_engine.Srtp.Crypto.{Crypto, constant_time_eq, compute_rtp_auth_tag}
use rtp_engine.Srtp.Context.{SrtpContext, unprotect_rtp, position, remember_source, moved}
use rtp_engine.Srtp.Context.Sources.{lookup_state}

-- The packet less its authentication tag.
abbrev pub portion_of : List ℕ → List ℕ
portion_of packet = take (length packet - 10) packet

abbrev pub tag_of : List ℕ → List ℕ
tag_of packet = drop (length packet - 10) packet

abbrev pub seq_of : List ℕ → ℕ
seq_of packet = u16_at (portion_of packet) 2

abbrev pub ssrc_of : List ℕ → ℕ
ssrc_of packet = u32_at (portion_of packet) 8

-- The receive state, the rollover counter and the packet index that a packet is judged by.
abbrev pub source_of : SrtpContext → List ℕ → RecvState
source_of ctx packet = lookup_state ctx.rx (ssrc_of packet)

abbrev pub roc_of : SrtpContext → List ℕ → ℕ
roc_of ctx packet = estimate_roc (source_of ctx packet) (seq_of packet)

abbrev pub index_of : SrtpContext → List ℕ → ℕ
index_of ctx packet = roc_of ctx packet * 65536 + seq_of packet

module _ (c : Crypto) where
  pub record Accepted (ctx : SrtpContext) (packet : List ℕ) : Type 0 where
    pub admitted : admits (source_of ctx packet).window (index_of ctx packet) ≡ true
    pub authentic :
        constant_time_eq
          (compute_rtp_auth_tag c ctx.session_auth_key (portion_of packet) (roc_of ctx packet))
          (tag_of packet)
        ≡ true
    pub stored :
        (unprotect_rtp c ctx packet).0
        ≡ remember_source ctx
            (position (ssrc_of packet) ctx.rx)
            (moved (source_of ctx packet) (roc_of ctx packet) (seq_of packet) (index_of ctx packet))

  pub unprotect_rtp-Accepted :
      (ctx : SrtpContext) (packet out : List ℕ)
      → (unprotect_rtp c ctx packet).1 ≡ ok out
      → Accepted ctx packet
  unfolding unprotect_rtp lookup_state
  unprotect_rtp-Accepted ctx packet out h = ground arith
