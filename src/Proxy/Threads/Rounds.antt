-- ===== src/Proxy/Threads/Rounds.antt =====
-- src/proxy.rs: one round of either thread, beside a server whose messages are known.
use rust_vnc.Common.{drop, length, drop-append}
use rust_vnc.Common.{ℕ, List, [], ◌∷◌, ◌++◌, ◌≡◌, ◌≢◌, refl, ap, sym, ◌∙◌, subst, none, some}
use rust_vnc.Common.{All, append_assoc, append-nil, ◌⊎◌, inl, inr}
use rust_vnc.Wire.{Error, Result, ok, err, panic, Input, ends, feed, feed-append, unexpected_eof}
use rust_vnc.Wire.{write_many, disconnected, read_u8}
use rust_vnc.Wire.Session.{Action, Stream, continue, ◌>>=◌}
use rust_vnc.Wire.Session
use rust_vnc.Protocol.PixelFormat.{PixelFormat}
use rust_vnc.Protocol.Frame.{Frame, frame_bytes, IsFrame}
use rust_vnc.Protocol.ServerMessage
use rust_vnc.Proxy.{Link, from_server}
use rust_vnc.Proxy.{forward_c2s_round, forward_s2c_round}
use rust_vnc.Proxy.Relay.{between, IsRelayed, forward_s2c_round_lem}
use rust_vnc.Proxy.Threads.{Running}
use rust_vnc.Proxy.Threads.Half.{s2c_half, forward_c2s_round-Keeps}

module _ (f : PixelFormat) (frames : List Frame) (out : List ℕ) where
  -- The server has still to send the messages `rest`, or is cut off, and the client was sent all the
  -- others, each one whole.
  abbrev pub Relays : Input → List ℕ → List Frame → Type 0
  Relays si co rest =
      (done : List Frame) × (done ++ rest ≡ frames)
      × (co ≡ out ++ write_many frame_bytes done)
      × ((si ≡ feed (write_many frame_bytes rest) (ends unexpected_eof))
          ⊎ (si ≡ ends unexpected_eof))
      × All (λ fr. IsFrame f fr × IsRelayed fr) rest

  -- A beginning of the next message.
  abbrev pub IsBeginning : List ℕ → List Frame → Type 0
  IsBeginning front [] = front ≡ []
  IsBeginning front (fr ∷ rest) = (back : List ℕ) × (front ++ back ≡ frame_bytes fr)

  -- The thread has returned, and a message may have been broken off.
  abbrev pub IsBroken : Running → Type 0
  IsBroken p =
      (rest : List Frame) × ((sent : List ℕ) × ((front : List ℕ) × Relays (ends unexpected_eof) sent
            rest
          × (p.link.client.outgoing ≡ sent ++ front)
          × IsBeginning front rest
          × ((e : Error) × (p.s2c ≡ some (err e)))))

  abbrev pub IsRelay : Running → Type 0
  IsRelay p =
      ((rest : List Frame) × Relays p.link.server.incoming p.link.client.outgoing rest
        × (p.s2c ≢ some panic))
      ⊎ IsBroken p

  pub at_the_end :
      (l : Link)
      → l.server.incoming ≡ ends unexpected_eof
      → forward_s2c_round f l ≡ (err disconnected, l)
  unfolding forward_s2c_round from_server Session.receive ServerMessage.read_from read_u8
  at_the_end l e = rw e refl

  pub cut :
      (si : Input) (co : List ℕ) (rest : List Frame)
      → Relays si co rest
      → Relays (ends unexpected_eof) co rest
  cut si co rest (done, parts, sent, _, valid) = (done, parts, sent, inr refl, valid)

  -- A round relays the next message whole, or finds the end of the stream and changes nothing.
  abbrev Outcome : Link → Result (Unit {0}) × Link → Type 0
  Outcome l r =
      ((r.0 ≡ ok tt) × ((rest : List Frame) × Relays r.1.server.incoming r.1.client.outgoing rest))
      ⊎ (r ≡ (err disconnected, l))

  next_message :
      (fr : Frame) (rest : List Frame) (si ci : Input) (so co : List ℕ)
      → si ≡ feed (write_many frame_bytes (fr ∷ rest)) (ends unexpected_eof)
      → IsFrame f fr
      → IsRelayed fr
      → forward_s2c_round f (between si so ci co) ≡ (
        ok tt,
        between
            (feed (write_many frame_bytes rest) (ends unexpected_eof))
            so
            ci
            (co ++ frame_bytes fr),
      )
  unfolding write_many
  next_message fr rest si ci so co e h relayed =
      rw (e, feed-append (frame_bytes fr) (write_many frame_bytes rest) (ends unexpected_eof))
        (forward_s2c_round_lem f fr (feed (write_many frame_bytes rest) (ends unexpected_eof)) ci so
          co h relayed)

  written-append :
      (xs ys : List Frame)
      → write_many frame_bytes (xs ++ ys) ≡ write_many frame_bytes xs ++ write_many frame_bytes ys
  unfolding write_many
  written-append [] ys = refl
  written-append (x ∷ xs) ys = simp (written-append xs ys, append_assoc)

  written_one : (fr : Frame) → write_many frame_bytes (fr ∷ []) ≡ frame_bytes fr
  unfolding write_many
  written_one fr = append-nil (frame_bytes fr)

  forward_s2c_round-Outcome :
      (l : Link) (rest : List Frame)
      → Relays l.server.incoming l.client.outgoing rest
      → Outcome l (forward_s2c_round f l)
  unfolding write_many
  forward_s2c_round-Outcome l rest (done, parts, sent, inr e, valid) = inr (at_the_end l e)
  forward_s2c_round-Outcome l [] (done, parts, sent, inl e, valid) = inr (at_the_end l e)
  forward_s2c_round-Outcome l (fr ∷ rest) (done, parts, sent, inl e, ((h, relayed), valid)) =
      let relay =
        next_message fr rest l.server.incoming l.client.incoming l.server.outgoing l.client.outgoing
          e h relayed in
      inl (
        ap (λ (r : Result (Unit {0}) × Link). r.0) relay,
        (
          rest,
          (
            done ++ fr ∷ [],
            append_assoc done (fr ∷ []) rest ∙ parts,
            ap (λ (r : Result (Unit {0}) × Link). r.1.client.outgoing) relay
                ∙ ap (λ b. b ++ frame_bytes fr) sent
                ∙ simp (written-append, written_one, append_assoc),
            inl (ap (λ (r : Result (Unit {0}) × Link). r.1.server.incoming) relay),
            valid,
          ),
        ),
      )

  pub outcome :
      (l l' : Link) (r : Result (Unit {0})) (rest : List Frame)
      → Relays l.server.incoming l.client.outgoing rest
      → forward_s2c_round f l ≡ (r, l')
      → ((r ≡ ok tt) × ((more : List Frame) × Relays l'.server.incoming l'.client.outgoing more))
        ⊎ ((r ≡ err disconnected) × (l' ≡ l))
  outcome l l' r rest h e = elim (subst (Outcome l) e (forward_s2c_round-Outcome l rest h)) [
    | inl relayed ↦ inl relayed
    | inr stopped ↦ inr (
      ap (λ (x : Result (Unit {0}) × Link). x.0) stopped,
      ap (λ (x : Result (Unit {0}) × Link). x.1) stopped,
    )
  ]

  -- What the other thread does leaves this side as it is.
  pub beside :
      (l l' : Link) (r : Result (Unit {0}))
      → forward_c2s_round l ≡ (r, l')
      → (rest : List Frame) → Relays l.server.incoming l.client.outgoing rest
      → Relays l'.server.incoming l'.client.outgoing rest
  beside l l' r e rest h =
      let same : s2c_half l ≡ s2c_half l' =
        sym (forward_c2s_round-Keeps l) ∙ ap (λ (x : Result (Unit {0}) × Link). s2c_half x.1) e in
      subst (λ (x : Input × List ℕ). Relays x.0 x.1 rest) same h

  -- A message that is broken off stays so where the thread's own half is left alone.
  pub stays-IsBroken :
      (p q : Running)
      → q.link.client.outgoing ≡ p.link.client.outgoing
      → q.s2c ≡ p.s2c
      → IsBroken p
      → IsBroken q
  stays-IsBroken p q out same (rest, (sent, (front, h, parts, begins, (e, stopped)))) =
      (rest, (sent, (front, h, out ∙ parts, begins, (e, same ∙ stopped))))

  pub broken_waits : {A : Type 0} (p : Running) → IsBroken p → p.s2c ≡ none → A
  broken_waits p (rest, (sent, (front, h, parts, begins, (e, stopped)))) waits =
      absurd (cc (waits, stopped))

  -- What the other thread sends leaves the client's stream alone.
  pub beside_out :
      (l l' : Link) (r : Result (Unit {0}))
      → forward_c2s_round l ≡ (r, l')
      → l'.client.outgoing ≡ l.client.outgoing
  beside_out l l' r e =
      ap (λ (x : Result (Unit {0}) × Link). x.1.client.outgoing) (sym e)
      ∙ ap (λ (x : Input × List ℕ). x.1) (forward_c2s_round-Keeps l)

  same_front : (xs ys zs : List ℕ) → xs ++ ys ≡ xs ++ zs → ys ≡ zs
  same_front xs ys zs e = sym (drop-append xs ys) ∙ (ap (drop (length xs)) e ∙ drop-append xs zs)

  -- What a round writes that succeeds begins the next message.
  pub begins :
      (l l' : Link) (rest : List Frame) (front back : List ℕ)
      → Relays l.server.incoming l.client.outgoing rest
      → forward_s2c_round f l ≡ (ok tt, l')
      → l'.client.outgoing ≡ l.client.outgoing ++ (front ++ back)
      → IsBeginning front rest
  unfolding write_many
  begins l l' rest front back (done, parts, sent, inr e, valid) r wrote =
      absurd (cc (ap (λ (x : Result (Unit {0}) × Link). x.0) (sym r ∙ at_the_end l e)))
  begins l l' [] front back (done, parts, sent, inl e, valid) r wrote =
      absurd (cc (ap (λ (x : Result (Unit {0}) × Link). x.0) (sym r ∙ at_the_end l e)))
  begins l l' (fr ∷ rest) front back (done, parts, sent, inl e, ((h, relayed), valid)) r wrote =
      let relay =
        next_message fr rest l.server.incoming l.client.incoming l.server.outgoing l.client.outgoing
          e h relayed in
      (
        back,
        same_front l.client.outgoing (front ++ back) (frame_bytes fr) (
            sym wrote ∙ ap (λ (x : Result (Unit {0}) × Link). x.1.client.outgoing) (sym r ∙ relay)),
      )

  pub nothing_begins : (rest : List Frame) → IsBeginning [] rest
  nothing_begins [] = refl
  nothing_begins (fr ∷ rest) = (frame_bytes fr, refl)
