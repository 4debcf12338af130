-- ===== src/Srtp/Context.antt =====
-- SrtpContext of src/srtp.rs. A method that takes `&mut self` returns the context beside its
-- result.
pub mod Sources
pub mod Opening
pub mod Keeps
pub mod RoundTrip
pub mod Replay
pub mod Sending
pub mod CounterBlocks
mod Tests
use rtp_engine.Base.{
  ℕ, zero, suc, ◌+◌, ◌-◌, ◌*◌, ◌/◌, ◌%◌, Bool, true, false, not, ◌&&◌, Option, none, some, List, [],
  ◌∷◌, ◌++◌, ltb, leb, ◌==◌, if◌then◌else◌, length, get_or, set, take, drop, byte_at, bit, u16_at,
  u32_at, u32_to_be,
}
use rtp_engine.Error.{Result, ok, err, rtp, rtcp, srtp, srtp_replay, ◌>>=◌}
use rtp_engine.Srtp.Window.{ReplayWindow, empty, admits, accept}
use rtp_engine.Srtp.Source
use rtp_engine.Srtp.Source.{SendState, RecvState, idle, estimate_roc}
use rtp_engine.Srtp.Crypto.{
  Crypto, auth_tag_len, master_key_len, master_salt_len, keying_material_len, build_iv,
  build_rtcp_iv, constant_time_eq, aes_128_cm_encrypt, compute_rtp_auth_tag, compute_rtcp_auth_tag,
  derive_session_key, derive_session_salt, derive_session_auth_key,
}

abbrev pub max_rx_sources : ℕ
max_rx_sources = 64

-- The receive state of SRTCP is the list of pairs of a source and its window.
pub record SrtpContext : Type 0 where
  pub session_key : List ℕ
  pub session_salt : List ℕ
  pub session_auth_key : List ℕ
  pub rtcp_session_key : List ℕ
  pub rtcp_session_salt : List ℕ
  pub rtcp_session_auth_key : List ℕ
  pub tx : SendState
  pub rx : List RecvState
  pub srtcp_index : ℕ
  pub rtcp_rx : List (ℕ × ReplayWindow)

-- `packet.first()?`, `packet.get(len + 2..len + 4)?` and the final `then_some` are the `none`s.
unfoldable pub rtp_header_len : List ℕ → Option ℕ
rtp_header_len [] = none
rtp_header_len (b ∷ rest) =
    let packet : List ℕ = b ∷ rest in
    let len = 12 + b % 16 * 4 in
    if bit b 4
    then if ltb (length packet) (len + 4)
      then none
      else (let total = len + (4 + u16_at packet (len + 2) * 4) in
          if leb total (length packet) then some total else none)
    else if leb len (length packet)
    then some len
    else none

-- `output[n..]` is encrypted in place.
encrypt_from : Crypto → ℕ → List ℕ → List ℕ → List ℕ → List ℕ
encrypt_from c n key iv output = take n output ++ aes_128_cm_encrypt c key iv (drop n output)

-- The rollover counter and sequence number for a packet to send.
unfoldable pub advance : SendState → ℕ → SendState
advance tx seq =
    if not tx.initialized
    then record tx { initialized = true; s_l = seq }
    else if seq == 0 && tx.s_l == 0xFFFF
    then record tx { roc = (tx.roc + 1) % 4294967296; s_l = seq }
    else record tx { s_l = seq }

-- `self.rx.iter().position(|state| state.ssrc == ssrc)`
unfoldable pub position : ℕ → List RecvState → Option ℕ
position ssrc [] = none
position ssrc (s ∷ rest) =
    if s.ssrc == ssrc
    then some 0
    else elim (position ssrc rest) [ none ↦ none | some i ↦ some (suc i) ]

unfoldable pub rtcp_position : ℕ → List (ℕ × ReplayWindow) → Option ℕ
rtcp_position ssrc [] = none
rtcp_position ssrc ((s, w) ∷ rest) =
    if s == ssrc
    then some 0
    else elim (rtcp_position ssrc rest) [ none ↦ none | some i ↦ some (suc i) ]

abbrev pub is_none {ℓ} : {A : Type ℓ} → Option A → Bool
is_none none = true
is_none (some _) = false

-- `position.map_or_else(|| RecvState::new(ssrc), |i| self.rx[i])`
unfoldable pub state_at : Option ℕ → ℕ → List RecvState → RecvState
state_at none ssrc rx = Source.new ssrc
state_at (some i) ssrc rx = get_or rx i (Source.new ssrc)

unfoldable pub rtcp_window_at : Option ℕ → List (ℕ × ReplayWindow) → ReplayWindow
rtcp_window_at none rx = empty
rtcp_window_at (some i) rx = (get_or rx i (0, empty)).1

unfoldable pub remember_source : SrtpContext → Option ℕ → RecvState → SrtpContext
remember_source ctx none state = record ctx { rx = ctx.rx ++ (state ∷ []) }
remember_source ctx (some i) state = record ctx { rx = set ctx.rx i state }

unfoldable pub remember_rtcp : SrtpContext → Option ℕ → ℕ → ReplayWindow → SrtpContext
remember_rtcp ctx none ssrc w = record ctx { rtcp_rx = ctx.rtcp_rx ++ ((ssrc, w) ∷ []) }
remember_rtcp ctx (some i) ssrc w = record ctx {
  rtcp_rx = set ctx.rtcp_rx i ((get_or ctx.rtcp_rx i (ssrc, w)).0, w);
}

-- `state.window.highest.is_none_or(|highest| index > highest)`
abbrev pub is_newer : Option ℕ → ℕ → Bool
is_newer none index = true
is_newer (some highest) index = ltb highest index

-- The state of a source after the packet `index` with the sequence number `seq`.
unfoldable pub moved : RecvState → ℕ → ℕ → ℕ → RecvState
moved state roc seq index =
    if is_newer state.window.highest index
    then record state { roc = roc; s_l = seq; window = accept state.window index }
    else record state { window = accept state.window index }

module _ (c : Crypto) where
  unfoldable pub new : List ℕ → List ℕ → Result SrtpContext
  new master_key master_salt =
      if not (length master_key == master_key_len)
      then err srtp
      else if not (length master_salt == master_salt_len)
      then err srtp
      else do
        session_key ← derive_session_key c master_key master_salt 0
        session_salt ← derive_session_salt c master_key master_salt 2
        session_auth_key ← derive_session_auth_key c master_key master_salt 1
        rtcp_session_key ← derive_session_key c master_key master_salt 3
        rtcp_session_salt ← derive_session_salt c master_key master_salt 5
        rtcp_session_auth_key ← derive_session_auth_key c master_key master_salt 4
        ok (record {
          session_key = session_key;
          session_salt = session_salt;
          session_auth_key = session_auth_key;
          rtcp_session_key = rtcp_session_key;
          rtcp_session_salt = rtcp_session_salt;
          rtcp_session_auth_key = rtcp_session_auth_key;
          tx = idle;
          rx = [];
          srtcp_index = 0;
          rtcp_rx = [];
        })

  -- `from_base64` behind the base64 decoder, which is third-party code: what it returned.
  unfoldable pub from_decoded : Option (List ℕ) → Result SrtpContext
  unfolding new
  from_decoded none = err srtp
  from_decoded (some decoded) =
      if ltb (length decoded) keying_material_len
      then err srtp
      else new (take 16 decoded) (take 14 (drop 16 decoded))

  -- `protect_rtp` after its guards.
  seal_rtp : SrtpContext → ℕ → List ℕ → SrtpContext × Result (List ℕ)
  unfolding encrypt_from
  seal_rtp ctx header_len packet =
      let seq = u16_at packet 2 in
      let ssrc = u32_at packet 8 in
      let tx = advance ctx.tx seq in
      let iv = build_iv ctx.session_salt ssrc tx.roc seq in
      let output = encrypt_from c header_len ctx.session_key iv packet in
      let tag = compute_rtp_auth_tag c ctx.session_auth_key output tx.roc in
      (record ctx { tx = tx }, ok (output ++ tag))

  unfoldable pub protect_rtp : SrtpContext → List ℕ → SrtpContext × Result (List ℕ)
  unfolding seal_rtp
  protect_rtp ctx packet =
      if ltb (length packet) 12 then (ctx, err rtp) else elim (rtp_header_len packet) [
        | none ↦ (ctx, err rtp)
        | some header_len ↦ seal_rtp ctx header_len packet
      ]

  -- `unprotect_rtp` after its first guards: `portion` is `authenticated_portion`, which starts with
  -- the twelve bytes that the source reads from the packet itself.
  open_rtp : SrtpContext → ℕ → List ℕ → List ℕ → SrtpContext × Result (List ℕ)
  unfolding encrypt_from
  open_rtp ctx header_len portion tag =
      let seq = u16_at portion 2 in
      let ssrc = u32_at portion 8 in
      let place = position ssrc ctx.rx in
      if is_none place && leb max_rx_sources (length ctx.rx)
      then (ctx, err srtp)
      else let state = state_at place ssrc ctx.rx in
        let roc = estimate_roc state seq in
        if not (constant_time_eq (compute_rtp_auth_tag c ctx.session_auth_key portion roc) tag)
        then (ctx, err srtp)
        else let index = roc * 65536 + seq in
          if not (admits state.window index)
          then (ctx, err srtp_replay)
          else let iv = build_iv ctx.session_salt ssrc roc seq in
            (
              remember_source ctx place (moved state roc seq index),
              ok (encrypt_from c header_len ctx.session_key iv portion),
            )

  unfoldable pub unprotect_rtp : SrtpContext → List ℕ → SrtpContext × Result (List ℕ)
  unfolding open_rtp
  unprotect_rtp ctx packet =
      if ltb (length packet) (12 + auth_tag_len)
      then (ctx, err srtp)
      else let boundary = length packet - auth_tag_len in
        elim (rtp_header_len (take boundary packet)) [
          | none ↦ (ctx, err srtp)
          | some header_len ↦ open_rtp ctx header_len (take boundary packet) (drop boundary packet)
        ]

  unfoldable pub protect_rtcp : SrtpContext → List ℕ → SrtpContext × Result (List ℕ)
  unfolding encrypt_from
  protect_rtcp ctx packet =
      if ltb (length packet) 8
      then (ctx, err rtcp)
      else let index = ctx.srtcp_index in
        let iv = build_rtcp_iv ctx.rtcp_session_salt (u32_at packet 4) index in
        let body =
          if ltb 8 (length packet)
          then encrypt_from c 8 ctx.rtcp_session_key iv packet
          else packet in
        let output = body ++ u32_to_be (index % 2147483648 + 2147483648) in
        let tag = compute_rtcp_auth_tag c ctx.rtcp_session_auth_key output in
        (record ctx { srtcp_index = (index + 1) % 4294967296 % 2147483648 }, ok (output ++ tag))

  -- `unprotect_rtcp` after its first guard.
  open_rtcp : SrtpContext → List ℕ → List ℕ → SrtpContext × Result (List ℕ)
  unfolding encrypt_from
  open_rtcp ctx portion tag =
      if not (constant_time_eq (compute_rtcp_auth_tag c ctx.rtcp_session_auth_key portion) tag)
      then (ctx, err srtp)
      else let index_offset = length portion - 4 in
        let e_index = u32_at portion index_offset in
        let index = e_index % 2147483648 in
        let ssrc = u32_at portion 4 in
        let place = rtcp_position ssrc ctx.rtcp_rx in
        if is_none place && leb max_rx_sources (length ctx.rtcp_rx)
        then (ctx, err srtp)
        else let window = rtcp_window_at place ctx.rtcp_rx in
          if not (admits window index)
          then (ctx, err srtp_replay)
          else let output = take index_offset portion in
            let iv = build_rtcp_iv ctx.rtcp_session_salt ssrc index in
            let clear =
              if leb 2147483648 e_index && ltb 8 (length output)
              then encrypt_from c 8 ctx.rtcp_session_key iv output
              else output in
            (remember_rtcp ctx place ssrc (accept window index), ok clear)

  unfoldable pub unprotect_rtcp : SrtpContext → List ℕ → SrtpContext × Result (List ℕ)
  unfolding open_rtcp
  unprotect_rtcp ctx packet =
      if ltb (length packet) (12 + auth_tag_len)
      then (ctx, err srtp)
      else let boundary = length packet - auth_tag_len in
        open_rtcp ctx (take boundary packet) (drop boundary packet)
