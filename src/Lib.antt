-- ===== src/Lib.antt =====
-- rtp-engine, a Rust library for the media of voice calls: RTP, RTCP and SRTP packets, a jitter
-- buffer, codecs, and the stream that joins them. This development models the path of a packet
-- through the library, from the encoder and the header over SRTP to the jitter buffer and the
-- decoder, and proves what a caller relies on.
--
-- Error models src/error.rs. Rtp models src/rtp: Rtp.Header and Rtp.Packet are header.rs and the
-- parsers of mod.rs, Rtp.Rtcp is rtcp.rs, and Rtp.Stats is stats.rs. Srtp models src/srtp.rs:
-- Srtp.Window is ReplayWindow, Srtp.Source is SendState and RecvState, Srtp.Crypto holds the
-- initial counter blocks, the tags and the key derivation, and Srtp.Context is SrtpContext, which
-- uses the three. Jitter models src/jitter.rs: Jitter.State is the buffer with its constructor and
-- queries, Jitter.Slots its BTreeMap as a sorted association list, Jitter.Arrival is push_at and
-- Jitter.Playout pop_at, with what each calls; `clamp` panics with crossed bounds, which is the
-- result `none` of pop_at. Codec.G711 models src/codec/g711.rs, Codec.G722 src/codec/g722.rs (Band
-- is the predictor and scale factor of one band; what Rust computes in i32 is computed in unbounded
-- integers), and Codec.Types the tables of src/codec/mod.rs, whose coder traits are the interface
-- Codec.Coder and whose negotiation is Codec.Negotiation; Srtp.Sdp is the a=crypto attribute of
-- src/srtp.rs, and Base.Text what the two use of `str`, on lists of code points. Stream models
-- StreamCore of src/stream.rs, which joins all of these: Stream.Arrival is ingest with admit,
-- Stream.Playout is playout, and Stream.Sending packetize and sender_report. Session models the
-- threads of src/session.rs, which joins the same parts around an audio device: Session.Dtmf is
-- send_dtmf, Session.Capture the callback of the microphone in run_audio_tx, from the voice
-- processor over the resampler to Session.Transmit, the packet loop with its keepalive,
-- Session.Receive what run_audio_rx does with a datagram and with a playout tick, Session.Playback
-- the queue to the speaker with fill_playback, and Session.Rtcp the reports of run_rtcp. Resample
-- models src/resample.rs, with its StreamResampler. Recorder models src/recorder.rs, whose files
-- are the bytes of Recorder.Wav. AudioProc.Frame models FrameAccumulator of
-- src/audio_proc/frame.rs, AudioProc.Voice the lifecycle of VoiceProcessor of
-- src/audio_proc/processor.rs, AudioProc.Paths its CapturePath and RenderPath, and Stun the
-- messages of src/stun.rs. Base holds what they share. A struct is a record and an operation a
-- function of the same name, in the spelling of this language; one with `&mut self` returns the new
-- state. The theorems about a module stand in its child modules, or beside it under the name of
-- what they prove, and its tests in Tests.
--
-- A byte, like any unsigned word, is a natural number, a slice a list, and wrap-around is written
-- as a remainder. A shift or mask by a constant is a quotient or remainder, and `|` of operands
-- with disjoint bits is a sum. A read of a slice is written with the default 0, and every one
-- stands behind the length test that the source makes. An `Instant` is a count of nanoseconds. Most
-- loops are recursions on a list or on the rounds left. Two are on fuel: the loop of Base.Drain,
-- which cuts frames in AudioProc.Frame, chunks in Resample and packets in Session, with the number
-- of pending samples, of which each round takes a frame of at least one, and the attribute loop of
-- Stun, with the length of the message, of which each round takes at least four bytes.
--
-- Parameters: AES in counter mode and HMAC-SHA1 (Srtp.Crypto.Crypto), the arithmetic of `f64`
-- (Base.Float) and of `f32` (Resample.F32), the crate rubato of the resampler, the WebRTC backend
-- of the voice processor, the coders behind the traits (Codec.Coder.Coders, of which G.711 and
-- G.722 are instances), the random SSRC, sequence number and timestamp of a new stream, the wall
-- clock of a sender report, base64, what Unicode makes of a character outside ASCII in capitals,
-- and the key that is drawn.
--
-- Not modelled: error messages and logging; MediaStream of src/stream.rs, the exchange of
-- src/stun.rs, the sockets, devices, level meters and locks of src/session.rs and the start of a
-- session, src/device.rs, the paths and errors of src/recorder.rs, the rest of src/audio_proc and
-- of src/codec, which are input and output, floating point, or calls of other libraries, or still
-- to come; the atomicity of the counters of src/rtp/stats.rs, a call of which is one step here;
-- overflow that panics in a debug build: of transit times in src/jitter.rs, which takes six years
-- at a clock rate of 48000, and of the duration of a digit in src/stream.rs, which is written with
-- the wrap-around of a release build.
pub mod Base
pub mod Error
pub mod Rtp
pub mod Srtp
pub mod Jitter
pub mod Codec
pub mod Stun
pub mod AudioProc
pub mod Recorder
pub mod Resample
pub mod Session
pub mod Stream
