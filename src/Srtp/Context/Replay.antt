-- ===== src/Srtp/Context/Replay.antt =====
-- Replay protection of SrtpContext::unprotect_rtp of src/srtp.rs, over any sequence of packets.
use rtp_engine.Base.{
  ℕ, ◌+◌, ◌-◌, ◌*◌, ◌≡◌, refl, sym, ap, subst, ◌∙◌, inl, inr, true, false, Bool-cases, Option, none,
  some, List, [], ◌∷◌, arith, leb, ◌==◌, ==_iff, ==_self, if◌then◌else◌,
}
use rtp_engine.Error.{Result, ok, err, srtp_replay, Result-cases}
use rtp_engine.Srtp.Window.{ReplayWindow, admits, accept, shl64}
use rtp_engine.Srtp.Window.Bits.{test_bit-set_bit}
use rtp_engine.Srtp.Window.History.{
  test_bit-one, elem, fresh, Covers, admits-eq-fresh, accept-Covers,
}
use rtp_engine.Srtp.Source
use rtp_engine.Srtp.Source.{RecvState, estimate_roc}
use rtp_engine.Srtp.Crypto.{Crypto}
use rtp_engine.Srtp.Context.{SrtpContext, unprotect_rtp, position, moved, is_none}
use rtp_engine.Srtp.Context.Keeps.{refused_keeps_context, unprotects_rtp}
use rtp_engine.Srtp.Context.Sources.{
  lookup_state, rx-remember_source, lookup_state-update, ssrc-lookup_state, position-update,
  session_auth_key-remember_source,
}
use rtp_engine.Srtp.Context.Opening.{
  seq_of, ssrc_of, source_of, roc_of, index_of, Accepted, unprotect_rtp-Accepted,
}

-- The indices of one source in a list of accepted packets.
abbrev pub indices_of : ℕ → List (ℕ × ℕ) → List ℕ
indices_of ssrc [] = []
indices_of ssrc ((s, i) ∷ log) = if s == ssrc then i ∷ indices_of ssrc log else indices_of ssrc log

-- No source has the same index twice.
abbrev pub Once : List (ℕ × ℕ) → Type 0
Once [] = Unit
Once ((s, i) ∷ log) = (elem i (indices_of s log) ≡ false) × Once log

-- The windows of the context stand for the packets of the log.
abbrev Logged : List RecvState → List (ℕ × ℕ) → Type 0
Logged rx log = (ssrc : ℕ) → Covers (lookup_state rx ssrc).window (indices_of ssrc log)

window-moved :
    (state : RecvState) (roc seq index : ℕ)
    → (moved state roc seq index).window ≡ accept state.window index
unfolding moved
window-moved state roc seq index = ground arith

ssrc-moved : (state : RecvState) (roc seq index : ℕ) → (moved state roc seq index).ssrc ≡ state.ssrc
unfolding moved
ssrc-moved state roc seq index = ground arith

no_sources : Logged [] []
unfolding lookup_state Source.new
no_sources ssrc = refl

-- After a packet is accepted, its rollover counter is estimated as before.
estimate_roc-moved :
    (state : RecvState) (seq : ℕ)
    → let roc = estimate_roc state seq in
      estimate_roc (moved state roc seq (roc * 65536 + seq)) seq ≡ roc
unfolding estimate_roc moved accept
estimate_roc-moved state seq = ground arith

-- And its index is not admitted.
admits-accept : (w : ReplayWindow) (index : ℕ) → admits (accept w index) index ≡ false
unfolding admits accept
admits-accept w index = go w.highest w.seen
  where
    go :
        (o : Option ℕ) (s : ℕ)
        → admits (accept (record { highest = o; seen = s }) index) index ≡ false
    go none s = ground (arith, test_bit-one (index - index))
    go (some x) s = elim (Bool-cases (leb index x)) [
      | inl late ↦ rw late (ground (arith, test_bit-set_bit s (x - index) (x - index)))
      | inr new ↦ rw new (
          ground (
            arith,
            test_bit-set_bit (if leb 64 (index - x) then 0 else shl64 s (index - x)) 0
                (index - index),
          ))
    ]

module _ (c : Crypto) where
  -- The context after a packet that was accepted.
  lookup-after :
      (ctx : SrtpContext) (packet : List ℕ) (q : ℕ)
      → Accepted c ctx packet
      → lookup_state (unprotect_rtp c ctx packet).0.rx q ≡ (
          if ssrc_of packet == q
          then moved
              (source_of ctx packet)
              (roc_of ctx packet)
              (seq_of packet)
              (index_of ctx packet)
          else lookup_state ctx.rx q)
  lookup-after ctx packet q a =
      let state =
        moved (source_of ctx packet) (roc_of ctx packet) (seq_of packet) (index_of ctx packet) in
      ap (λ (x : SrtpContext). lookup_state x.rx q) a.stored
      ∙ ap (λ l. lookup_state l q) (rx-remember_source ctx (ssrc_of packet) state)
      ∙ lookup_state-update (ssrc_of packet) q state ctx.rx
          (ssrc-moved _ _ _ _ ∙ ssrc-lookup_state ctx.rx (ssrc_of packet))

  own_state :
      (ctx : SrtpContext) (packet : List ℕ)
      → Accepted c ctx packet
      → source_of (unprotect_rtp c ctx packet).0 packet
        ≡ moved (source_of ctx packet) (roc_of ctx packet) (seq_of packet) (index_of ctx packet)
  own_state ctx packet a =
      lookup-after ctx packet (ssrc_of packet) a ∙ rw (==_self (ssrc_of packet)) refl

  now_known :
      (ctx : SrtpContext) (packet : List ℕ)
      → Accepted c ctx packet
      → is_none (position (ssrc_of packet) (unprotect_rtp c ctx packet).0.rx) ≡ false
  now_known ctx packet a =
      rw (a.stored, rx-remember_source)
        (position-update (ssrc_of packet) _ ctx.rx
          (ssrc-moved _ _ _ _ ∙ ssrc-lookup_state ctx.rx (ssrc_of packet)))

  -- The log and the window of the packet's own source.
  was_fresh :
      (ctx : SrtpContext) (packet : List ℕ) (log : List (ℕ × ℕ))
      → Logged ctx.rx log
      → Accepted c ctx packet
      → fresh (index_of ctx packet) (indices_of (ssrc_of packet) log) ≡ true
  was_fresh ctx packet log l a =
      sym
        (admits-eq-fresh (source_of ctx packet).window (index_of ctx packet) _ (l (ssrc_of packet)))
      ∙ a.admitted

  own_source :
      (ctx : SrtpContext) (packet : List ℕ) (log : List (ℕ × ℕ))
      → Logged ctx.rx log
      → Accepted c ctx packet
      → Covers
          (lookup_state (unprotect_rtp c ctx packet).0.rx (ssrc_of packet)).window
          (index_of ctx packet ∷ indices_of (ssrc_of packet) log)
  own_source ctx packet log l a =
      rw (lookup-after ctx packet (ssrc_of packet) a, ==_self (ssrc_of packet), window-moved)
        (accept-Covers (source_of ctx packet).window (index_of ctx packet)
          (indices_of (ssrc_of packet) log) (l (ssrc_of packet)) (was_fresh ctx packet log l a))

  Accepted-Logged :
      (ctx : SrtpContext) (packet : List ℕ) (log : List (ℕ × ℕ))
      → Logged ctx.rx log
      → Accepted c ctx packet
      → Logged (unprotect_rtp c ctx packet).0.rx ((ssrc_of packet, index_of ctx packet) ∷ log)
  Accepted-Logged ctx packet log l a q = elim (Bool-cases (ssrc_of packet == q)) [
    | inl same ↦ rw same (
        subst
          (λ x.
            Covers (lookup_state (unprotect_rtp c ctx packet).0.rx x).window
              (index_of ctx packet ∷ indices_of x log))
          ((==_iff _ _).0 same) (own_source ctx packet log l a))
    | inr other ↦ rw (lookup-after ctx packet q a, other) (l q)
  ]

  -- The sources and indices of the packets that a context accepts, the latest first.
  abbrev pub log_of : Result (List ℕ) → ℕ × ℕ → List (ℕ × ℕ) → List (ℕ × ℕ)
  log_of (ok _) entry log = entry ∷ log
  log_of (err _) entry log = log

  unfoldable pub accept_all : SrtpContext → List (ℕ × ℕ) → List (List ℕ) → List (ℕ × ℕ)
  accept_all ctx log [] = log
  accept_all ctx log (packet ∷ rest) =
      let after = unprotect_rtp c ctx packet in
      accept_all after.0 (log_of after.1 (ssrc_of packet, index_of ctx packet) log) rest

  accept_all-Once :
      (ctx : SrtpContext) (log : List (ℕ × ℕ)) (packets : List (List ℕ))
      → Logged ctx.rx log
      → Once log
      → Once (accept_all ctx log packets)
  unfolding accept_all
  accept_all-Once ctx log [] l o = o
  accept_all-Once ctx log (packet ∷ rest) l o = elim (Result-cases (unprotect_rtp c ctx packet).1) [
    | inl (out, e) ↦
        let a = unprotect_rtp-Accepted c ctx packet out e in
        rw e (
          accept_all-Once (unprotect_rtp c ctx packet).0 _ rest (Accepted-Logged ctx packet log l a)
            (ground (arith, was_fresh ctx packet log l a), o))
    | inr (r, e) ↦
        rw (e, refused_keeps_context c unprotects_rtp ctx packet r e)
          (accept_all-Once ctx log rest l o)
  ]

  -- A context that has no sources yet accepts no packet index of any source twice, whatever
  -- packets arrive, replayed, reordered or forged.
  pub accepts-Once :
      (ctx : SrtpContext) (packets : List (List ℕ)) → ctx.rx ≡ [] → Once (accept_all ctx [] packets)
  accepts-Once ctx packets e = accept_all-Once ctx [] packets (rw e no_sources) tt

  -- A context that judges an accepted packet by the same key, source and rollover counter, and does
  -- not admit its index.
  refused_by_window :
      (ctx later : SrtpContext) (packet out : List ℕ)
      → (unprotect_rtp c ctx packet).1 ≡ ok out
      → later.session_auth_key ≡ ctx.session_auth_key
      → is_none (position (ssrc_of packet) later.rx) ≡ false
      → roc_of later packet ≡ roc_of ctx packet
      → admits (source_of later packet).window (index_of later packet) ≡ false
      → (unprotect_rtp c later packet).1 ≡ err srtp_replay
  unfolding unprotect_rtp lookup_state
  refused_by_window ctx later packet out h key known same stale = ground arith

  -- A packet that was just accepted is refused as a replay when it comes again.
  pub replay_refused :
      (ctx : SrtpContext) (packet out : List ℕ)
      → (unprotect_rtp c ctx packet).1 ≡ ok out
      → (unprotect_rtp c (unprotect_rtp c ctx packet).0 packet).1 ≡ err srtp_replay
  replay_refused ctx packet out h =
      let a = unprotect_rtp-Accepted c ctx packet out h in
      let e = own_state ctx packet a in
      let same =
        ap (λ s. estimate_roc s (seq_of packet)) e
        ∙ estimate_roc-moved (source_of ctx packet) (seq_of packet) in
      refused_by_window ctx (unprotect_rtp c ctx packet).0 packet out h
        (ap (λ (x : SrtpContext). x.session_auth_key) a.stored
          ∙ session_auth_key-remember_source ctx _ _)
        (now_known ctx packet a) same
        (rw (same, e, window-moved)
          (admits-accept (source_of ctx packet).window (index_of ctx packet)))
