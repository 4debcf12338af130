-- ===== src/Srtp/Context/Keeps.antt =====
-- What the methods of SrtpContext of src/srtp.rs do to the context when they refuse a packet.
use rtp_engine.Base.{◌≡◌, List, ℕ, arith}
use rtp_engine.Error.{Error, Result, err}
use rtp_engine.Srtp.Crypto.{Crypto}
use rtp_engine.Srtp.Context.{SrtpContext, protect_rtp, unprotect_rtp, protect_rtcp, unprotect_rtcp}

pub data Method : Type 0 where
  protects_rtp unprotects_rtp protects_rtcp unprotects_rtcp : Method

module _ (c : Crypto) where
  abbrev pub call : Method → SrtpContext → List ℕ → SrtpContext × Result (List ℕ)
  call protects_rtp = protect_rtp c
  call unprotects_rtp = unprotect_rtp c
  call protects_rtcp = protect_rtcp c
  call unprotects_rtcp = unprotect_rtcp c

  -- A packet that any of the four methods refuses, for whatever reason, leaves the context as it
  -- was: no key, counter, source or replay window moves.
  pub refused_keeps_context :
      (m : Method) (ctx : SrtpContext) (packet : List ℕ) (e : Error)
      → (call m ctx packet).1 ≡ err e
      → (call m ctx packet).0 ≡ ctx
  unfolding protect_rtp unprotect_rtp protect_rtcp unprotect_rtcp
  refused_keeps_context protects_rtp ctx packet e h = ground arith
  refused_keeps_context unprotects_rtp ctx packet e h = ground arith
  refused_keeps_context protects_rtcp ctx packet e h = ground arith
  refused_keeps_context unprotects_rtcp ctx packet e h = ground arith
