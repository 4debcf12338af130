-- ===== src/Session/Transmit/Chunks.antt =====
-- What `run_audio_tx` of src/session.rs sends does not depend on how the samples come in.
use rtp_engine.Base.{ℕ, ◌<◌, ◌≡◌, ap, sym, ◌∙◌, List, ◌++◌, append_assoc, arith}
use rtp_engine.Base.Drain.{drain, drain-append}
use rtp_engine.Codec.Types.{
  CodecType, pcmu, pcma, g729, g722, opus, pcm_samples_per_packet, pcm_rate,
}
use rtp_engine.Codec.G711.{Sample}
use rtp_engine.Codec.Coder.{Coders}
use rtp_engine.Srtp.Crypto.{Crypto}
use rtp_engine.Session.Transmit.{Sender, send_frame, send_samples}

pub packet_holds_samples : (codec : CodecType) → 0 < pcm_samples_per_packet codec
unfolding pcm_samples_per_packet pcm_rate
packet_holds_samples pcmu = omega arith
packet_holds_samples pcma = omega arith
packet_holds_samples g729 = omega arith
packet_holds_samples g722 = omega arith
packet_holds_samples opus = omega arith

module _ (k : Coders) (codec : CodecType) (ssrc : ℕ) (c : Crypto) where
  -- Two pieces of the microphone's samples, one after the other, make the datagrams that the two
  -- make as one piece, and leave the same samples pending and the same sender: the numbers, the
  -- encoder, the SRTP context, the counters and the recording.
  pub send_samples-append :
      (sender : Sender k.Encoder) (pending xs ys : List Sample)
      → let first = send_samples k codec ssrc c sender pending xs in
        let second = send_samples k codec ssrc c first.2 first.1 ys in
        send_samples k codec ssrc c sender pending (xs ++ ys)
        ≡ (first.0 ++ second.0, second.1, second.2)
  unfolding send_samples
  send_samples-append sender pending xs ys =
      let size = pcm_samples_per_packet codec in
      ap (λ p. drain (send_frame k codec ssrc c) size p sender) (sym (append_assoc pending xs ys))
      ∙ drain-append (send_frame k codec ssrc c) size (pending ++ xs) ys sender
          (packet_holds_samples codec)
