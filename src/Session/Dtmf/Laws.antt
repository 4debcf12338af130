-- ===== src/Session/Dtmf/Laws.antt =====
-- What the packets of a digit say (`send_dtmf` of src/session.rs), on a call without SRTP.
use rtp_engine.Base.{
  ℕ, zero, suc, ◌+◌, ◌*◌, ◌/◌, ◌%◌, ◌<◌, min, ◌≡◌, refl, ap, ap₂, sym, subst, ◌∙◌, Bool, true,
  false, Bool-cases, inl, inr, Option, none, some, List, [], ◌∷◌, map, arith, if◌then◌else◌,
  u16_to_be,
}
use rtp_engine.Rtp.Header
use rtp_engine.Rtp.Header.{RtpHeader, with_marker}
use rtp_engine.Rtp.Packet.{RtpPacket, parse, to_bytes}
use rtp_engine.Rtp.Packet.Laws.{packet_read_back}
use rtp_engine.Srtp.Crypto.{Crypto}
use rtp_engine.Stream.AudioPacket.{audio_header-IsValid}
use rtp_engine.Session.Dtmf.{
  Event, Line, usable, telephone_event_packet, protect_packet, send_event, send_all, send_code,
  send_dtmf, event_code, dtmf_event_timestamp, dtmf_durations,
}

-- A packet of an event: its sequence number, its marker, its end flag with the volume of -10 dBm0,
-- and its duration.
abbrev pub event_of : Event → ℕ → Bool → Bool → ℕ → RtpPacket
event_of event sequence marker is_end duration = record {
  header = record (Header.new event.pt sequence event.timestamp event.ssrc) { marker = marker };
  payload = event.code ∷ (if is_end then 138 else 10) ∷ u16_to_be duration;
}

written :
    (event : Event) (sequence : ℕ) (marker is_end : Bool) (duration : ℕ)
    → telephone_event_packet event sequence marker is_end duration
      ≡ to_bytes (event_of event sequence marker is_end duration)
unfolding telephone_event_packet Header.new with_marker to_bytes
written event sequence true true duration = refl
written event sequence true false duration = refl
written event sequence false true duration = refl
written event sequence false false duration = refl

-- The fields of an event fit their places.
abbrev pub EventFits : Event → Type 0
EventFits event = (event.pt < 128) × (event.timestamp < 4294967296) × (event.ssrc < 4294967296)

reads :
    (event : Event) (sequence : ℕ) (marker is_end : Bool) (duration : ℕ)
    → EventFits event
    → sequence < 65536
    → parse (telephone_event_packet event sequence marker is_end duration)
      ≡ some (event_of event sequence marker is_end duration)
reads event sequence marker is_end duration (pt, timestamp, ssrc) small =
    ap parse (written event sequence marker is_end duration)
    ∙ packet_read_back (event_of event sequence marker is_end duration) (
        audio_header-IsValid event.pt sequence event.timestamp event.ssrc marker pt small timestamp
          ssrc)

timestamp_fits :
    (audio_ts audio_clock event_clock : ℕ)
    → audio_ts < 4294967296
    → dtmf_event_timestamp audio_ts audio_clock event_clock < 4294967296
unfolding dtmf_event_timestamp
timestamp_fits audio_ts audio_clock event_clock h = ground arith

-- The numbers that the other threads take before the first `steps` steps of the task.
abbrev pub total : (ℕ → ℕ) → ℕ → ℕ
total taken zero = 0
total taken (suc steps) = total taken steps + taken steps

total-suc : (taken : ℕ → ℕ) (n : ℕ) → total taken (n + 1) ≡ total taken n + taken n
total-suc taken n =
    let e : suc n ≡ n + 1 = omega arith in
    subst (λ m. total taken m ≡ total taken n + taken n) e refl

-- The three steps of a packet.
total-three :
    (taken : ℕ → ℕ) (j : ℕ)
    → total taken (3 * (j + 1))
      ≡ total taken (3 * j) + taken (3 * j) + taken (3 * j + 1) + taken (3 * j + 2)
total-three taken j =
    let n = 3 * j in
    let three : 3 * (j + 1) ≡ n + 1 + 1 + 1 = omega arith in
    let two : n + 1 + 1 ≡ n + 2 = omega arith in
    let last = ap (total taken) three ∙ total-suc taken (n + 1 + 1) in
    omega (arith, last, total-suc taken n, total-suc taken (n + 1), ap taken two)

-- The sequence number of packet `j`: the task's own before it, and what the others have taken.
abbrev pub number_of : ℕ → (ℕ → ℕ) → ℕ → ℕ
number_of seq taken j = (seq + j + total taken (3 * j + 1)) % 65536

-- The five packets of a digit, under these numbers.
abbrev pub five_of : Event → (ℕ → ℕ) → ℕ → List (Option RtpPacket)
five_of event number per_packet =
    some (event_of event (number 0) true false (min (per_packet * 1) 65535))
    ∷ some (event_of event (number 1) false false (min (per_packet * 2) 65535))
    ∷ some (event_of event (number 2) false true (min (per_packet * 3) 65535))
    ∷ some (event_of event (number 3) false true (min (per_packet * 3) 65535))
    ∷ some (event_of event (number 4) false true (min (per_packet * 3) 65535))
    ∷ []

module _ (c : Crypto) (between : ℕ → Line → Line) (taken : ℕ → ℕ) where
  -- On a call without SRTP, the other threads take that many numbers before each step.
  abbrev pub TakeNumbers : Type 0
  TakeNumbers =
      (n : ℕ) (line : Line)
      → line.tx_srtp ≡ none
      → ((between n line).tx_srtp ≡ none)
        × ((between n line).tx_seq ≡ (line.tx_seq + taken n) % 65536)

  -- The line of a call without SRTP after that many packets of the task.
  abbrev Stands : ℕ → ℕ → Line → Type 0
  Stands seq j line =
      (line.tx_srtp ≡ none) × (line.tx_seq ≡ (seq + j + total taken (3 * j)) % 65536)

  protect_packet-plain :
      (line : Line) (packet : List ℕ)
      → line.tx_srtp ≡ none
      → protect_packet c line packet ≡ (line, packet)
  unfolding protect_packet usable
  protect_packet-plain line packet e = elim (Bool-cases line.poisoned) [
    | inl broken ↦ simp (protect_packet, usable, broken)
    | inr sound ↦ simp (protect_packet, usable, sound, e)
  ]

  send_event-Stands :
      (seq j : ℕ) (line : Line) (event : Event) (marker is_end : Bool) (duration : ℕ)
      → EventFits event
      → TakeNumbers
      → Stands seq j line
      → let sent = send_event c between j line event marker is_end duration in
        Stands seq (j + 1) sent.0
        × (parse sent.1 ≡ some (event_of event (number_of seq taken j) marker is_end duration))
  unfolding send_event
  send_event-Stands seq j line event marker is_end duration fits takes (plain, at) =
      let built = between (3 * j) line in
      let (plain0, at0) = takes (3 * j) line plain in
      let numbered = record built { tx_seq = (built.tx_seq + 1) % 65536 } in
      let (plain1, at1) = takes (3 * j + 1) numbered plain0 in
      let held = between (3 * j + 1) numbered in
      let (plain2, at2) = takes (3 * j + 2) held plain1 in
      let packet = telephone_event_packet event built.tx_seq marker is_end duration in
      let same = protect_packet-plain held packet plain1 in
      let first : total taken (3 * j + 1) ≡ total taken (3 * j) + taken (3 * j) =
        total-suc taken (3 * j) in
      let number : built.tx_seq ≡ number_of seq taken j = omega (arith, at, at0, first) in
      subst
        (λ r.
          Stands seq (j + 1) (between (3 * j + 2) r.0)
          × (parse r.1 ≡ some (event_of event (number_of seq taken j) marker is_end duration)))
        (sym same)
        (
          (plain2, omega (arith, at, at0, at1, at2, total-three taken j)),
          subst (λ n. parse packet ≡ some (event_of event n marker is_end duration)) number
              (reads event built.tx_seq marker is_end duration fits (omega (arith, at0))),
        )

  all-five :
      (seq : ℕ) (line : Line) (event : Event) (event_clock : ℕ)
      → EventFits event
      → TakeNumbers
      → Stands seq 0 line
      → map parse (send_all c between 0 line event (dtmf_durations event_clock)).1
        ≡ five_of event (number_of seq taken) (event_clock * 20 / 1000)
  unfolding send_all dtmf_durations
  all-five seq line event event_clock fits takes stands =
      let (stands1, read1) = send_event-Stands seq 0 line event true false _ fits takes stands in
      let (stands2, read2) = send_event-Stands seq 1 _ event false false _ fits takes stands1 in
      let (stands3, read3) = send_event-Stands seq 2 _ event false true _ fits takes stands2 in
      let (stands4, read4) = send_event-Stands seq 3 _ event false true _ fits takes stands3 in
      let (stands5, read5) = send_event-Stands seq 4 _ event false true _ fits takes stands4 in
      ap₂ ◌∷◌ read1 (ap₂ ◌∷◌ read2 (ap₂ ◌∷◌ read3 (ap₂ ◌∷◌ read4 (ap₂ ◌∷◌ read5 refl))))

  -- On a call without SRTP, a known digit goes out in five packets that parse: under one timestamp,
  -- the first one marked, the last three with the end bit, the durations one, two and three times
  -- 20 ms of the event clock (65535 at most). Where the other threads take `taken n` sequence numbers
  -- before step `n` of the task, three steps to a packet, packet `j` has the number that is j and all
  -- that they have taken by then after the first, with wrap-around.
  pub send_dtmf-five :
      (line : Line) (pt audio_clock event_clock audio_ts ssrc code : ℕ) (digit : List ℕ)
      → TakeNumbers
      → line.tx_srtp ≡ none
      → line.tx_seq < 65536
      → pt < 128
      → audio_ts < 4294967296
      → ssrc < 4294967296
      → event_code digit ≡ some code
      → map parse (send_dtmf c between line pt audio_clock event_clock audio_ts ssrc digit).1
        ≡ five_of
            (record {
              pt = pt;
              timestamp = dtmf_event_timestamp audio_ts audio_clock event_clock;
              ssrc = ssrc;
              code = code;
            })
            (number_of line.tx_seq taken)
            (event_clock * 20 / 1000)
  unfolding send_dtmf send_code
  send_dtmf-five line pt audio_clock event_clock audio_ts ssrc code digit takes plain h1 h2 h3 h4
        known =
      let event : Event = record {
        pt = pt;
        timestamp = dtmf_event_timestamp audio_ts audio_clock event_clock;
        ssrc = ssrc;
        code = code;
      } in
      ap (λ o. map parse (send_code c between o line pt audio_clock event_clock audio_ts ssrc).1)
        known
      ∙ all-five line.tx_seq line event event_clock
          (h2, timestamp_fits audio_ts audio_clock event_clock h3, h4) takes
          (plain, omega (arith, h1))
