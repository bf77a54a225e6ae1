-- ===== src/Client/Requests/Waiting.antt =====
-- src/client.rs: when `Client::set_format` ends, and what it leaves.
use rust_vnc.Common.{ℕ, zero, suc, ◌<◌, ◌≤◌, List, [], ◌∷◌, ◌++◌, Bool, true, false, length, map}
use rust_vnc.Common.{
  All, Option, none, some, ◌≡◌, refl, ap, arith, ◌∙◌, if◌then◌else◌, length-append, length-map,
}
use rust_vnc.Common.{◌==◌}
use rust_vnc.Wire.{Rect}
use rust_vnc.Protocol.PixelFormat.{PixelFormat}
use rust_vnc.Protocol.ClientMessage
use rust_vnc.Protocol.ClientMessage.{C2s}
use rust_vnc.Client.Handshake.{Client}
use rust_vnc.Client.Events.{Event, put_pixels}
use rust_vnc.Client.Requests.{Session, resized, poll_event, count_events, drain, rect_eq}
use rust_vnc.Client.Requests.{
  is_frame, scan, await_frame, framebuffer, adopt, set_format, request_update, write, switch,
  adopted,
}

-- The client behind some polls.
abbrev pub resized_by : List (Option Event) → Client → Client
resized_by [] c = c
resized_by (none ∷ polls) c = resized_by polls c
resized_by (some event ∷ polls) c = resized_by polls (resized event c)

-- A poll that does not end the loop.
abbrev pub Passes : Rect → Option Event → Type 0
Passes rect none = Unit {0}
Passes rect (some event) = is_frame rect event ≡ false

abbrev pub session : Client → List ℕ → List (Option Event) → Session
session c outgoing polls = record { client = c; outgoing = outgoing; polls = polls }

eq_refl : (n : ℕ) → (n == n) ≡ true
eq_refl n = ground arith

rect_eq_refl : (r : Rect) → rect_eq r r ≡ true
unfolding rect_eq
rect_eq_refl r = rw (eq_refl r.left, eq_refl r.top, eq_refl r.width, eq_refl r.height)

-- What is done of the loop behind a scan.
abbrev resume : Bool × Session → ℕ → Rect → Option Session
unfolding await_frame
resume (found, s) fuel rect = if found then some s else await_frame fuel rect s

resume_until :
    (rect : Rect) (waiting : List (Option Event)) (pixels : List ℕ) (rest : List (Option Event))
    (c : Client) (o : List ℕ) (polls fuel : ℕ)
    → All (Passes rect) waiting
    → length waiting < polls
    → length waiting ≤ fuel
    → resume
        (scan polls rect (session c o (waiting ++ some (put_pixels rect pixels) ∷ rest)))
        fuel
        rect
      ≡ some (session (resized_by waiting c) o rest)
unfolding scan poll_event is_frame resized await_frame
resume_until rect waiting pixels rest c o zero fuel v more enough = ground arith
resume_until rect [] pixels rest c o (suc polls) fuel v more enough = rw (rect_eq_refl rect) refl
resume_until rect (none ∷ waiting) pixels rest c o (suc polls) zero v more enough = ground arith
resume_until rect (none ∷ waiting) pixels rest c o (suc polls) (suc fuel) v more enough =
    resume_until rect waiting pixels rest c o
      (suc (length (waiting ++ some (put_pixels rect pixels) ∷ rest))) fuel v.1
      (omega (arith, length-append waiting (some (put_pixels rect pixels) ∷ rest))) (omega arith)
resume_until rect (some event ∷ waiting) pixels rest c o (suc polls) fuel v more enough = rw (v.0) (
    resume_until rect waiting pixels rest (resized event c) o polls fuel v.1 (omega arith)
      (omega arith))

resume_never :
    (rect : Rect) (waiting : List (Option Event)) (c : Client) (o : List ℕ) (polls fuel : ℕ)
    → All (Passes rect) waiting
    → resume (scan polls rect (session c o waiting)) fuel rect ≡ none
unfolding scan poll_event is_frame resized await_frame
resume_never rect waiting c o zero zero v = refl
resume_never rect waiting c o zero (suc fuel) v =
    resume_never rect waiting c o (suc (length waiting)) fuel v
resume_never rect [] c o (suc polls) zero v = refl
resume_never rect [] c o (suc polls) (suc fuel) v = resume_never rect [] c o 1 fuel tt
resume_never rect (none ∷ waiting) c o (suc polls) zero v = refl
resume_never rect (none ∷ waiting) c o (suc polls) (suc fuel) v =
    resume_never rect waiting c o (suc (length waiting)) fuel v.1
resume_never rect (some event ∷ waiting) c o (suc polls) fuel v =
    rw (v.0) (resume_never rect waiting (resized event c) o polls fuel v.1)

count_events_lem :
    (quiet : List Event) (later : List (Option Event)) (c : Client) (o : List ℕ) (fuel : ℕ)
    → length quiet < fuel
    → count_events fuel (session c o (map some quiet ++ none ∷ later))
      ≡ (length quiet, session (resized_by (map some quiet) c) o later)
unfolding count_events poll_event resized
count_events_lem quiet later c o zero h = ground arith
count_events_lem [] later c o (suc fuel) h = refl
count_events_lem (event ∷ quiet) later c o (suc fuel) h =
    rw (count_events_lem quiet later (resized event c) o fuel (omega arith)) refl

-- Draining takes the events up to the first poll that finds none.
drain_lem :
    (quiet : List Event) (later : List (Option Event)) (c : Client) (o : List ℕ)
    → drain (session c o (map some quiet ++ none ∷ later))
      ≡ (length quiet, session (resized_by (map some quiet) c) o later)
unfolding drain
drain_lem quiet later c o =
    count_events_lem quiet later c o (suc (length (map some quiet ++ none ∷ later)))
      (omega (arith, length-append (map some quiet) (none ∷ later), length-map quiet some))

module _ (quiet : List Event) (waiting : List (Option Event)) (c : Client) (o : List ℕ)
    (format : PixelFormat) where
  -- The rectangle that is waited for: the size is that behind the drained events.
  abbrev pub whole : Rect
  whole = framebuffer (resized_by (map some quiet) c).size

  abbrev pub asked : List ℕ
  asked =
      o
      ++ ClientMessage.write_to (C2s.framebuffer_update_request false 0 0 whole.width whole.height)

  -- A change of the pixel format ends once an update of the whole framebuffer arrives behind the
  -- events that are drained, if the loop may go around once for each poll before that: the update
  -- was requested in one piece and then the format was sent and adopted, the size is that of the
  -- last resize among all events taken, and the events behind the update are left.
  pub set_format-completes :
      (pixels : List ℕ) (rest : List (Option Event)) (fuel : ℕ)
      → All (Passes whole) waiting
      → length waiting < fuel
      → set_format fuel format (
          session c o (map some quiet ++ none ∷ (waiting ++ some (put_pixels whole pixels) ∷ rest)))
        ≡ some (
            session
              (record (resized_by waiting (resized_by (map some quiet) c)) { format = format })
              (asked ++ ClientMessage.write_to (C2s.set_pixel_format format))
              rest)
  unfolding set_format switch request_update adopt write await_frame
  set_format-completes pixels rest zero v enough = ground arith
  set_format-completes pixels rest (suc fuel) v enough =
      ap (switch (suc fuel) format)
        (drain_lem quiet (waiting ++ some (put_pixels whole pixels) ∷ rest) c o)
      ∙ ap (adopted format) (
          resume_until whole waiting pixels rest (resized_by (map some quiet) c) asked
            (suc (length (waiting ++ some (put_pixels whole pixels) ∷ rest))) fuel v
            (omega (arith, length-append waiting (some (put_pixels whole pixels) ∷ rest)))
            (omega arith))

  -- A change of the pixel format does not end where no update of the whole framebuffer in one
  -- rectangle arrives behind the events that are drained, also when the connection has ended: its
  -- loop still runs after any number of rounds.
  pub set_format_hangs :
      (fuel : ℕ)
      → All (Passes whole) waiting
      → set_format fuel format (session c o (map some quiet ++ none ∷ waiting)) ≡ none
  unfolding set_format switch request_update write await_frame
  set_format_hangs zero v = ap (switch 0 format) (drain_lem quiet waiting c o)
  set_format_hangs (suc fuel) v =
      ap (switch (suc fuel) format) (drain_lem quiet waiting c o)
      ∙ ap (adopted format) (
          resume_never whole waiting (resized_by (map some quiet) c) asked (suc (length waiting))
            fuel v)
