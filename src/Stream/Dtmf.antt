-- ===== src/Stream/Dtmf.antt =====
-- The digits that a stream receives (`dtmf_event_code`, `dtmf_digit` and the telephone-event branch
-- of `admit` in src/stream.rs).
use rtp_engine.Base.{ℕ, ◌+◌, ◌%◌, ◌≤◌, ◌≡◌, none, some, List, [], ◌∷◌, ◌++◌, arith, All}
use rtp_engine.Stream.State.{
  StreamCore, DtmfEvent, Verdict, accepted, dropped, dtmf_event_code, dtmf_digit,
  to_ascii_uppercase,
}
use rtp_engine.Stream.Arrival.{take_event}

-- The event code of a digit stands for that digit, a letter in its upper case.
pub dtmf_digit-dtmf_event_code :
    (digit event : ℕ)
    → dtmf_event_code digit ≡ some event
    → dtmf_digit event ≡ some (to_ascii_uppercase digit)
unfolding dtmf_event_code dtmf_digit
dtmf_digit-dtmf_event_code digit event e = ground arith

abbrev pub reported_in : Verdict → List DtmfEvent
reported_in (accepted none) = []
reported_in (accepted (some event)) = event ∷ []
reported_in (dropped reason) = []

-- A time as the 32 bits of a packet's timestamp hold it.
abbrev pub on_wire : ℕ → ℕ
on_wire t = t % 4294967296

-- The packets as they are on the wire, each from its time and its event code.
abbrev pub on_wires : List (ℕ × ℕ) → List (ℕ × ℕ)
on_wires [] = []
on_wires ((t, event) ∷ later) = (on_wire t, event) ∷ on_wires later

-- Packets whose time is that time or one before it, by at most half the range.
abbrev pub NoLater : ℕ → List (ℕ × ℕ) → Type 0
NoLater time = All (λ p. (p.0 ≤ time) × (time ≤ p.0 + 2147483648))

module _ {Float Encoder Decoder : Type 0} where
  -- Telephone-event packets one after the other, each with its timestamp and event code, and the
  -- digits that they report.
  unfoldable pub take_events :
      StreamCore Float Encoder Decoder
      → List (ℕ × ℕ)
      → StreamCore Float Encoder Decoder × List DtmfEvent
  take_events core [] = (core, [])
  take_events core ((timestamp, event) ∷ later) =
      let (next, verdict) = take_event core timestamp event in
      let (last, reports) = take_events next later in (last, reported_in verdict ++ reports)
