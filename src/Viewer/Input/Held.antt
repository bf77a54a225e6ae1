-- ===== src/Viewer/Input/Held.antt =====
-- client/main.rs: the byte of mouse buttons as a set of buttons.
use rust_vnc.Common.{
  ℕ, bit_or, ◌+◌, ◌<◌, Bool, true, false, ◌&&◌, ◌==◌, ◌≡◌, refl, if◌then◌else◌, arith, ==_iff,
}
use rust_vnc.Viewer.Input.{Mouse, left, middle, right, x1, x2, unknown, press, mouse_bit}

-- The buttons that are held.
abbrev pub Held : Type 0
Held = Mouse → Bool

abbrev pub same_button : Mouse → Mouse → Bool
same_button left left = true
same_button middle middle = true
same_button right right = true
same_button x1 x1 = true
same_button x2 x2 = true
same_button unknown unknown = true
same_button _ _ = false

-- The set behind a button that went down or up.
abbrev pub change : Bool → Mouse → Held → Held
change down button held m = if same_button button m then down else held m

abbrev weight : (l m r b c : Bool) → ℕ
weight l m r b c =
    (if l then 1 else 0)
    + (if m then 2 else 0)
    + (if r then 4 else 0)
    + (if b then 32 else 0)
    + (if c then 64 else 0)

-- The mask of the buttons of the protocol, as far as the program knows them.
abbrev pub mask_of : Held → ℕ
mask_of held = weight (held left) (held middle) (held right) (held x1) (held x2)

abbrev all2 : (Bool → Bool) → Bool
all2 test = test true && test false

all2_lem : (test : Bool → Bool) → all2 test ≡ true → (b : Bool) → test b ≡ true
all2_lem test h true = ground arith
all2_lem test h false = ground arith

abbrev all6 : (Bool → Bool → Bool → Bool → Bool → Bool → Bool) → Bool
all6 test = all2 λ d. all2 λ l. all2 λ m. all2 λ r. all2 λ b. all2 λ c. test d l m r b c

all6_lem :
    (test : Bool → Bool → Bool → Bool → Bool → Bool → Bool)
    → all6 test ≡ true
    → (d l m r b c : Bool) → test d l m r b c ≡ true
all6_lem test h d l m r b c =
    all2_lem (λ c. test d l m r b c)
      (all2_lem (λ b. all2 λ c. test d l m r b c)
        (all2_lem (λ r. all2 λ b. all2 λ c. test d l m r b c)
          (all2_lem (λ m. all2 λ r. all2 λ b. all2 λ c. test d l m r b c)
            (all2_lem (λ l. all2 λ m. all2 λ r. all2 λ b. all2 λ c. test d l m r b c)
              (all2_lem (λ d. all2 λ l. all2 λ m. all2 λ r. all2 λ b. all2 λ c. test d l m r b c) h
                d)
              l)
            m)
          r)
        b)
      c

abbrev pressed : Mouse → (d l m r b c : Bool) → ℕ
pressed left d l m r b c = weight d m r b c
pressed middle d l m r b c = weight l d r b c
pressed right d l m r b c = weight l m d b c
pressed x1 d l m r b c = weight l m r d c
pressed x2 d l m r b c = weight l m r b d
pressed unknown d l m r b c = weight l m r b c

abbrev presses : Mouse → (d l m r b c : Bool) → Bool
presses button d l m r b c = press d button (weight l m r b c) == pressed button d l m r b c

press_tests : (button : Mouse) → all6 (presses button) ≡ true
unfolding press mouse_bit
press_tests left = refl
press_tests middle = refl
press_tests right = refl
press_tests x1 = refl
press_tests x2 = refl
press_tests unknown = refl

press-weight :
    (button : Mouse) (d l m r b c : Bool)
    → press d button (weight l m r b c) ≡ pressed button d l m r b c
press-weight button d l m r b c =
    (==_iff (press d button (weight l m r b c)) (pressed button d l m r b c)).0
      (all6_lem (presses button) (press_tests button) d l m r b c)

-- A button that goes down or up changes the set, whatever else is held.
pub press-mask_of :
    (down : Bool) (button : Mouse) (held : Held)
    → press down button (mask_of held) ≡ mask_of (change down button held)
press-mask_of down left held =
    press-weight left down (held left) (held middle) (held right) (held x1) (held x2)
press-mask_of down middle held =
    press-weight middle down (held left) (held middle) (held right) (held x1) (held x2)
press-mask_of down right held =
    press-weight right down (held left) (held middle) (held right) (held x1) (held x2)
press-mask_of down x1 held =
    press-weight x1 down (held left) (held middle) (held right) (held x1) (held x2)
press-mask_of down x2 held =
    press-weight x2 down (held left) (held middle) (held right) (held x1) (held x2)
press-mask_of down unknown held =
    press-weight unknown down (held left) (held middle) (held right) (held x1) (held x2)

pub mask_of-lt : (held : Held) → mask_of held < 128
mask_of-lt held = ground arith

-- The bits of the wheel are beside those of the buttons.
abbrev wheel_test : ℕ → (d l m r b c : Bool) → Bool
wheel_test bit d l m r b c = bit_or (weight l m r b c) bit == weight l m r b c + bit

pub wheel-mask_of :
    (held : Held)
    → (bit_or (mask_of held) 0x08 ≡ mask_of held + 0x08)
      × (bit_or (mask_of held) 0x10 ≡ mask_of held + 0x10)
wheel-mask_of held = (beside 0x08 refl, beside 0x10 refl)
  where
    beside :
        (bit : ℕ) → all6 (wheel_test bit) ≡ true → bit_or (mask_of held) bit ≡ mask_of held + bit
    beside bit h = (==_iff (bit_or (mask_of held) bit) (mask_of held + bit)).0 (
        all6_lem (wheel_test bit) h true (held left) (held middle) (held right) (held x1) (held x2))
