-- ===== src/Session/Receive/Redirect.antt =====
-- Where a session sends to, once a datagram has come (src/session.rs).
use rtp_engine.Base.{
  ℕ, ◌≡◌, refl, ap, ◌∙◌, Option, none, some, List, [], ◌∷◌, ◌==◌, if◌then◌else◌, Bool, true, false,
  length,
}
use rtp_engine.Base.Float.{F64}
use rtp_engine.Base.Net.{SocketAddr}
use rtp_engine.Error.{Result, ok, err}
use rtp_engine.Codec.Types.{CodecType}
use rtp_engine.Codec.Coder.{Coders}
use rtp_engine.Rtp.Header.{RtpHeader}
use rtp_engine.Rtp.Packet.{parse_rtp, parse_sequence, parse_timestamp}
use rtp_engine.Srtp.Crypto.{Crypto}
use rtp_engine.Srtp.Context.{SrtpContext, unprotect_rtp}
use rtp_engine.Session.Transmit.{destination}
use rtp_engine.Session.Receive.{
  Receiver, learn, count_packet, measure, buffer, receive_clear, receive_opened, receive,
}

-- A datagram with its source and the two times.
pub record Arriving : Type 0 where
  pub datagram : List ℕ
  pub from : SocketAddr
  pub arrival : ℕ
  pub now : ℕ

module _ (f : F64) (k : Coders) (codec : CodecType) where
  measure-learned :
      (receiver : Receiver f.Value k.Decoder) (arrival : ℕ) (timestamp : Option ℕ)
      → (measure f k codec receiver arrival timestamp).learned ≡ receiver.learned
  unfolding measure
  measure-learned receiver arrival none = refl
  measure-learned receiver arrival (some timestamp) = refl

  pushed_or_not :
      (expected : Bool) (receiver pushed : Receiver f.Value k.Decoder)
      → pushed.learned ≡ receiver.learned
      → (if expected then pushed else receiver).learned ≡ receiver.learned
  pushed_or_not true receiver pushed e = e
  pushed_or_not false receiver pushed e = refl

  buffer-learned :
      (receiver : Receiver f.Value k.Decoder) (packet : Option (RtpHeader × List ℕ)) (now : ℕ)
      → (buffer f k codec receiver packet now).learned ≡ receiver.learned
  unfolding buffer
  buffer-learned receiver none now = refl
  buffer-learned receiver (some (header, payload)) now =
      pushed_or_not (header.payload_type == receiver.payload_type) receiver _ refl

  receive_clear-learned :
      (receiver : Receiver f.Value k.Decoder) (packet : List ℕ) (size arrival now : ℕ)
      → (receive_clear f k codec receiver packet size arrival now).learned ≡ receiver.learned
  unfolding receive_clear
  receive_clear-learned receiver packet size arrival now =
      let counted = record receiver {
        counters = count_packet f k codec receiver.counters size (parse_sequence packet);
      } in
      buffer-learned (measure f k codec counted arrival (parse_timestamp packet)) (parse_rtp packet)
        now
      ∙ measure-learned counted arrival (parse_timestamp packet)

  receive_opened-learned :
      (receiver : Receiver f.Value k.Decoder) (opened : Result (List ℕ)) (size arrival now : ℕ)
      → (receive_opened f k codec receiver opened size arrival now).learned ≡ receiver.learned
  unfolding receive_opened
  receive_opened-learned receiver (err e) size arrival now = refl
  receive_opened-learned receiver (ok clear) size arrival now =
      receive_clear-learned receiver clear size arrival now

  module _ (c : Crypto) where
    receive-learned :
        (receiver : Receiver f.Value k.Decoder) (srtp : Option SrtpContext) (a : Arriving)
        → receiver.srtp ≡ srtp
        → (receive f k codec c receiver a.datagram a.from a.arrival a.now).learned
          ≡ learn receiver.learned a.from
    unfolding receive
    receive-learned receiver none a e =
        let known = record receiver { learned = learn receiver.learned a.from; srtp = none } in
        simp (receive, e)
          (receive_clear-learned known a.datagram (length a.datagram) a.arrival a.now)
    receive-learned receiver (some ctx) a e =
        let known = record receiver {
          learned = learn receiver.learned a.from;
          srtp = some (unprotect_rtp c ctx a.datagram).0;
        } in
        simp (receive, e)
          (receive_opened-learned known (unprotect_rtp c ctx a.datagram).1 (length a.datagram)
            a.arrival a.now)

    -- Datagram after datagram.
    unfoldable pub receive_all :
        Receiver f.Value k.Decoder → List Arriving → Receiver f.Value k.Decoder
    receive_all receiver [] = receiver
    receive_all receiver (a ∷ later) =
        receive_all (receive f k codec c receiver a.datagram a.from a.arrival a.now) later

    receive_all-learned :
        (receiver : Receiver f.Value k.Decoder) (address : SocketAddr) (later : List Arriving)
        → receiver.learned ≡ some address
        → (receive_all receiver later).learned ≡ some address
    unfolding receive_all learn
    receive_all-learned receiver address [] known = known
    receive_all-learned receiver address (a ∷ later) known =
        receive_all-learned (receive f k codec c receiver a.datagram a.from a.arrival a.now) address
          later (receive-learned receiver receiver.srtp a refl ∙ ap (λ l. learn l a.from) known)

    -- Once a first datagram has come, whatever it holds and wherever it is from, with SRTP or
    -- without, and also where SRTP refuses it, the session sends to its source, and no datagram
    -- after it changes that.
    pub first_heard-destination :
        (receiver : Receiver f.Value k.Decoder) (first : Arriving) (later : List Arriving)
        (remote : SocketAddr)
        → receiver.learned ≡ none
        → destination (receive_all receiver (first ∷ later)).learned remote ≡ first.from
    unfolding receive_all learn
    first_heard-destination receiver first later remote unknown =
        let heard =
          receive f k codec c receiver first.datagram first.from first.arrival first.now in
        ap (λ l. destination l remote)
          (receive_all-learned heard first.from later (
            receive-learned receiver receiver.srtp first refl
            ∙ ap (λ l. learn l first.from) unknown))
