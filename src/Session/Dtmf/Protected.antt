-- ===== src/Session/Dtmf/Protected.antt =====
-- The digits of an encrypted call (`send_dtmf` of src/session.rs) leave under its SRTP keys.
use rtp_engine.Base.{
  ℕ, ◌+◌, ◌*◌, ◌%◌, ◌≡◌, refl, sym, subst, ◌∙◌, Bool, true, false, some, List, [], ◌∷◌,
}
use rtp_engine.Error.{ok}
use rtp_engine.Srtp.Crypto.{Crypto}
use rtp_engine.Srtp.Context.{SrtpContext, protect_rtp, rtp_header_len}
use rtp_engine.Rtp.Header.{to_bytes, with_marker}
use rtp_engine.Rtp.Header
use rtp_engine.Session.Dtmf.{
  Event, Line, usable, telephone_event_packet, protect_packet, send_event, send_all, send_code,
  send_dtmf, event_code, dtmf_event_timestamp, dtmf_durations,
}

-- A context with the same keys: the counters and windows are free.
abbrev pub SameKeys : SrtpContext → SrtpContext → Type 0
SameKeys ctx other =
    (other.session_key ≡ ctx.session_key)
    × (other.session_salt ≡ ctx.session_salt)
    × (other.session_auth_key ≡ ctx.session_auth_key)

-- The lock is not poisoned, and a context with those keys is behind it.
abbrev pub IsEncrypted : SrtpContext → Line → Type 0
IsEncrypted ctx line =
    (line.poisoned ≡ false) × (held : SrtpContext) × (line.tx_srtp ≡ some held) × SameKeys ctx held

-- What the packets of a digit say, in order: the marker, the end flag and the duration of each.
abbrev pub shapes : List ℕ → List (Bool × Bool × ℕ)
shapes (first ∷ second ∷ third ∷ []) =
    (true, false, first)
    ∷ (false, false, second)
    ∷ (false, true, third)
    ∷ (false, true, third)
    ∷ (false, true, third)
    ∷ []
shapes durations = []

module _ (c : Crypto) where
  -- A datagram is what protect_rtp makes of a packet of that event under a context with those keys.
  abbrev pub IsSealed : SrtpContext → Event → Bool × Bool × ℕ → List ℕ → Type 0
  IsSealed ctx event (marker, is_end, duration) datagram =
      (held : SrtpContext) × (moved : SrtpContext) × (seq : ℕ) × SameKeys ctx held
      × (protect_rtp c held (telephone_event_packet event seq marker is_end duration)
          ≡ (moved, ok datagram))

  -- One datagram for each shape.
  abbrev pub AllSealed : SrtpContext → Event → List (Bool × Bool × ℕ) → List (List ℕ) → Type 0
  AllSealed ctx event [] [] = Unit
  AllSealed ctx event (shape ∷ others) [] = ⊥
  AllSealed ctx event [] (datagram ∷ datagrams) = ⊥
  AllSealed ctx event (shape ∷ others) (datagram ∷ datagrams) =
      IsSealed ctx event shape datagram × AllSealed ctx event others datagrams

  -- protect_rtp takes every packet of an event, and keeps the keys.
  event_sealed :
      (ctx : SrtpContext) (event : Event) (seq : ℕ) (marker is_end : Bool) (duration : ℕ)
      → (moved : SrtpContext) × (sealed : List ℕ) × (protect_rtp c ctx
            (telephone_event_packet event seq marker is_end duration)
          ≡ (moved, ok sealed))
        × SameKeys ctx moved
  unfolding protect_rtp telephone_event_packet rtp_header_len to_bytes Header.new with_marker
  event_sealed ctx event seq true is_end duration = (_, _, refl, (refl, refl, refl))
  event_sealed ctx event seq false is_end duration = (_, _, refl, (refl, refl, refl))

  protect_packet-IsEncrypted :
      (ctx : SrtpContext) (line : Line) (event : Event) (seq : ℕ) (marker is_end : Bool)
      (duration : ℕ)
      → IsEncrypted ctx line
      → let sent =
          protect_packet c line (telephone_event_packet event seq marker is_end duration) in
        IsEncrypted ctx sent.0 × IsSealed ctx event (marker, is_end, duration) sent.1
  unfolding protect_packet usable
  protect_packet-IsEncrypted ctx line event seq marker is_end duration
        (sound, held, keyed, (key, salt, auth)) =
      let (moved, sealed, e, (key', salt', auth')) =
        event_sealed held event seq marker is_end duration in
      let whole : protect_packet c line (telephone_event_packet event seq marker is_end duration)
          ≡ (record line { tx_srtp = some moved }, sealed) =
        simp (protect_packet, usable, sound, keyed, e) in
      subst (λ r. IsEncrypted ctx r.0 × IsSealed ctx event (marker, is_end, duration) r.1)
        (sym whole)
        (
          (sound, moved, refl, (key' ∙ key, salt' ∙ salt, auth' ∙ auth)),
          (held, moved, seq, (key, salt, auth), e),
        )

  module _ (ctx : SrtpContext) (between : ℕ → Line → Line) where
    -- The other threads keep the line encrypted, and its lock sound.
    abbrev pub KeepEncrypted : Type 0
    KeepEncrypted = (n : ℕ) (line : Line) → IsEncrypted ctx line → IsEncrypted ctx (between n line)

    send_event-IsEncrypted :
        (j : ℕ) (line : Line) (event : Event) (marker is_end : Bool) (duration : ℕ)
        → KeepEncrypted
        → IsEncrypted ctx line
        → let sent = send_event c between j line event marker is_end duration in
          IsEncrypted ctx sent.0 × IsSealed ctx event (marker, is_end, duration) sent.1
    unfolding send_event
    send_event-IsEncrypted j line event marker is_end duration keeps own =
        let built = between (3 * j) line in
        let taken = record built { tx_seq = (built.tx_seq + 1) % 65536 } in
        let ready = keeps (3 * j + 1) taken (keeps (3 * j) line own) in
        let (held, sealed) =
          protect_packet-IsEncrypted ctx (between (3 * j + 1) taken) event built.tx_seq marker
            is_end duration ready in
        (keeps (3 * j + 2) _ held, sealed)

    three_leave :
        (line : Line) (event : Event) (first second third : ℕ)
        → KeepEncrypted
        → IsEncrypted ctx line
        → let durations = first ∷ second ∷ third ∷ [] in
          AllSealed ctx event (shapes durations) (send_all c between 0 line event durations).1
    unfolding send_all
    three_leave line event first second third keeps own =
        let (own1, sealed1) = send_event-IsEncrypted 0 line event true false first keeps own in
        let (own2, sealed2) = send_event-IsEncrypted 1 _ event false false second keeps own1 in
        let (own3, sealed3) = send_event-IsEncrypted 2 _ event false true third keeps own2 in
        let (own4, sealed4) = send_event-IsEncrypted 3 _ event false true third keeps own3 in
        let (own5, sealed5) = send_event-IsEncrypted 4 _ event false true third keeps own4 in
        (sealed1, (sealed2, (sealed3, (sealed4, (sealed5, tt)))))

    -- On an encrypted call no packet of a known digit leaves in the clear, whatever the other threads
    -- do to the line between any two steps of the task, while they keep the lock from being poisoned
    -- and the keys of its context: send_dtmf sends five datagrams, and each, in order, is what
    -- protect_rtp makes of a packet of the event with its marker, end flag and duration, under a
    -- context with the call's keys.
    pub send_dtmf-sealed :
        (line : Line) (pt audio_clock event_clock audio_ts ssrc code : ℕ) (digit : List ℕ)
        → KeepEncrypted
        → IsEncrypted ctx line
        → event_code digit ≡ some code
        → AllSealed ctx
            (record {
              pt = pt;
              timestamp = dtmf_event_timestamp audio_ts audio_clock event_clock;
              ssrc = ssrc;
              code = code;
            })
            (shapes (dtmf_durations event_clock))
            (send_dtmf c between line pt audio_clock event_clock audio_ts ssrc digit).1
    unfolding send_dtmf send_code dtmf_durations
    send_dtmf-sealed line pt audio_clock event_clock audio_ts ssrc code digit keeps own known =
        let event : Event = record {
          pt = pt;
          timestamp = dtmf_event_timestamp audio_ts audio_clock event_clock;
          ssrc = ssrc;
          code = code;
        } in
        let sent : List (List ℕ) → Type 0 =
          λ datagrams. AllSealed ctx event (shapes (dtmf_durations event_clock)) datagrams in
        subst (λ o. sent (send_code c between o line pt audio_clock event_clock audio_ts ssrc).1)
          (sym known) (three_leave line event _ _ _ keeps own)
