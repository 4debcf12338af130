-- ===== src/Session/Dtmf.antt =====
-- The digits of a media session: `send_dtmf` of src/session.rs and what it calls, with the other
-- threads that share its line at work between any two steps of the task that it spawns. Where the
-- datagrams are sent, and whether the socket takes them, is left out.
pub mod Protected
pub mod Laws
mod Tests
use rtp_engine.Base.{
  ℕ, ◌+◌, ◌-◌, ◌*◌, ◌/◌, ◌%◌, min, Bool, true, false, ◌&&◌, ◌||◌, Option, none, some, List, [], ◌∷◌,
  ◌++◌, length, leb, ◌==◌, if◌then◌else◌, u16_to_be,
}
use rtp_engine.Error.{ok, err}
use rtp_engine.Codec.Types.{packet_duration_ms}
use rtp_engine.Rtp.Header
use rtp_engine.Rtp.Header.{with_marker, to_bytes}
use rtp_engine.Rtp.Stats.{RtpCounters, record_sent}
use rtp_engine.Srtp.Crypto.{Crypto}
use rtp_engine.Srtp.Context.{SrtpContext, protect_rtp}

-- The event code of a digit, a string of code points.
unfoldable pub event_code : List ℕ → Option ℕ
event_code (digit ∷ []) =
    if leb 48 digit && leb digit 57
    then some (digit - 48)
    else if digit == 42
    then some 10
    else if digit == 35
    then some 11
    else none
event_code digits = none

unfoldable pub dtmf_durations : ℕ → List ℕ
dtmf_durations event_clock_rate =
    let per_packet = event_clock_rate * packet_duration_ms / 1000 in
    min (per_packet * 1) 65535 ∷ min (per_packet * 2) 65535 ∷ min (per_packet * 3) 65535 ∷ []

unfoldable pub dtmf_event_timestamp : ℕ → ℕ → ℕ → ℕ
dtmf_event_timestamp audio_ts audio_clock_rate event_clock_rate =
    if audio_clock_rate == event_clock_rate || audio_clock_rate == 0
    then audio_ts
    else audio_ts * event_clock_rate / audio_clock_rate % 4294967296

-- What the packets of a digit share.
pub record Event : Type 0 where
  pub pt : ℕ
  pub timestamp : ℕ
  pub ssrc : ℕ
  pub code : ℕ

abbrev pub volume : ℕ
volume = 10

-- `telephone_event_packet`, in which `volume & 0x3F` is a remainder.
unfoldable pub telephone_event_packet : Event → ℕ → Bool → Bool → ℕ → List ℕ
telephone_event_packet event sequence marker is_end duration =
    let plain = Header.new event.pt sequence event.timestamp event.ssrc in
    let header = if marker then with_marker plain else plain in
    let end_flag = if is_end then 128 else 0 in
    to_bytes header ++ (event.code ∷ (end_flag + volume % 64) ∷ u16_to_be duration)

-- What the task shares with the audio and the keepalive: the sequence number, the SRTP context
-- behind its lock, which is poisoned once a thread panics while it holds it, and the counters.
pub record Line : Type 0 where
  pub tx_seq : ℕ
  pub tx_srtp : Option SrtpContext
  pub poisoned : Bool
  pub counters : RtpCounters

-- The context that a sender finds; with none, or behind a poisoned lock, it sends in the clear.
unfoldable pub usable : Line → Option SrtpContext
usable line = if line.poisoned then none else line.tx_srtp

abbrev pub count_datagram : Line → List ℕ → Line
count_datagram line datagram = record line {
  counters = record_sent line.counters (length datagram);
}

module _ (c : Crypto) where
  -- The packet as it goes out: one that is refused goes out as it is.
  unfoldable pub protect_packet : Line → List ℕ → Line × List ℕ
  unfolding usable
  protect_packet line packet = elim (usable line) [
    | none ↦ (line, packet)
    | some ctx ↦
        let (moved, protected) = protect_rtp c ctx packet in
        let datagram : List ℕ = elim protected [ err e ↦ packet | ok sealed ↦ sealed ] in
        (record line { tx_srtp = some moved }, datagram)
  ]

  -- The closure `send`, with no other thread in between.
  unfoldable pub send : Line → List ℕ → Line × List ℕ
  unfolding protect_packet
  send line packet =
      let (held, datagram) = protect_packet line packet in (count_datagram held datagram, datagram)

  -- The task that is spawned shares the line with other threads: `between n` is what they make of it
  -- before its step number `n`, the steps of packet `j` being 3 j, where its number is taken,
  -- 3 j + 1, where the lock is held, and 3 j + 2, where it is counted.
  module _ (between : ℕ → Line → Line) where
    -- The closures `build` and `send`, for packet number `j` of the task.
    unfoldable pub send_event : ℕ → Line → Event → Bool → Bool → ℕ → Line × List ℕ
    unfolding protect_packet
    send_event j line event marker is_end duration =
        let built = between (3 * j) line in
        let packet = telephone_event_packet event built.tx_seq marker is_end duration in
        let taken = record built { tx_seq = (built.tx_seq + 1) % 65536 } in
        let (held, datagram) = protect_packet (between (3 * j + 1) taken) packet in
        (count_datagram (between (3 * j + 2) held) datagram, datagram)

    -- The loop over the durations, from the one of number `i` on; the last packet goes out three
    -- times.
    unfoldable pub send_all : ℕ → Line → Event → List ℕ → Line × List (List ℕ)
    unfolding send_event
    send_all i line event [] = (line, [])
    send_all i line event (duration ∷ []) =
        let (first_line, first) = send_event i line event (i == 0) true duration in
        let (second_line, second) = send_event (i + 1) first_line event false true duration in
        let (third_line, third) = send_event (i + 2) second_line event false true duration in
        (third_line, first ∷ second ∷ third ∷ [])
    send_all i line event (duration ∷ durations) =
        let (next, first) = send_event i line event (i == 0) false duration in
        let (last, datagrams) = send_all (i + 1) next event durations in (last, first ∷ datagrams)

    -- `send_dtmf` once the digit is looked up.
    unfoldable pub send_code : Option ℕ → Line → ℕ → ℕ → ℕ → ℕ → ℕ → Line × List (List ℕ)
    unfolding send_all
    send_code none line pt audio_clock event_clock audio_ts ssrc = (line, [])
    send_code (some code) line pt audio_clock event_clock audio_ts ssrc =
        let event_ts = dtmf_event_timestamp audio_ts audio_clock event_clock in
        send_all 0 line (record { pt = pt; timestamp = event_ts; ssrc = ssrc; code = code })
          (dtmf_durations event_clock)

    -- `send_dtmf` with the payload type, the two clock rates, the audio timestamp and the SSRC of
    -- the session: the datagrams in the order in which they leave.
    unfoldable pub send_dtmf : Line → ℕ → ℕ → ℕ → ℕ → ℕ → List ℕ → Line × List (List ℕ)
    send_dtmf line pt audio_clock event_clock audio_ts ssrc digit =
        send_code (event_code digit) line pt audio_clock event_clock audio_ts ssrc
