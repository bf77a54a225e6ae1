-- ===== src/Viewer/Keys.antt =====
-- client/main.rs: the keys that are sent by their keysym.
use rust_vnc.Common.{ℕ, Bool, Option, none, some, if◌then◌else◌, ◌==◌, ◌&&◌, not}

-- The keycodes of SDL that the program names, and the others.
pub data Keycode : Type 0 where
  space exclaim quotedbl hash dollar percent ampersand quote left_paren right_paren : Keycode
  asterisk plus comma minus period slash num0 num1 num2 num3 num4 num5 num6 num7 num8 : Keycode
  num9 colon semicolon less equals greater question at left_bracket backslash : Keycode
  right_bracket caret underscore backquote a b c d e f g h i j k l m n o p q r s t u v : Keycode
  w x y z backspace tab return escape delete caps_lock f1 f2 f3 f4 f5 f6 f7 f8 f9 f10 : Keycode
  f11 f12 print_screen scroll_lock pause insert home page_up end page_down right left : Keycode
  down up num_lock_clear kp_divide kp_multiply kp_minus kp_plus kp_enter kp1 kp2 kp3 : Keycode
  kp4 kp5 kp6 kp7 kp8 kp9 kp0 kp_period f13 f14 f15 f16 f17 f18 f19 f20 f21 f22 f23 : Keycode
  f24 menu sysreq l_ctrl l_shift l_alt l_gui r_ctrl r_shift r_alt r_gui : Keycode
  other : ℕ → Keycode

-- The keysyms of X11 that the program names.
pub data Keysym : Type 0 where
  xk_space xk_exclam xk_quotedbl xk_numbersign xk_dollar xk_percent xk_ampersand : Keysym
  xk_apostrophe xk_parenleft xk_parenright xk_asterisk xk_plus xk_comma xk_minus : Keysym
  xk_period xk_slash xk_0 xk_1 xk_2 xk_3 xk_4 xk_5 xk_6 xk_7 xk_8 xk_9 xk_colon : Keysym
  xk_semicolon xk_less xk_equal xk_greater xk_question xk_at xk_bracketleft : Keysym
  xk_backslash xk_bracketright xk_caret xk_underscore xk_grave xk_a xk_b xk_c xk_d xk_e : Keysym
  xk_f xk_g xk_h xk_i xk_j xk_k xk_l xk_m xk_n xk_o xk_p xk_q xk_r xk_s xk_t xk_u xk_v : Keysym
  xk_w xk_x xk_y xk_z xk_back_space xk_tab xk_return xk_escape xk_delete xk_caps_lock : Keysym
  xk_f1 xk_f2 xk_f3 xk_f4 xk_f5 xk_f6 xk_f7 xk_f8 xk_f9 xk_f10 xk_f11 xk_f12 xk_print : Keysym
  xk_scroll_lock xk_pause xk_insert xk_home xk_page_up xk_end xk_page_down xk_right : Keysym
  xk_left xk_down xk_up xk_num_lock xk_kp_divide xk_kp_multiply xk_kp_subtract : Keysym
  xk_kp_add xk_kp_enter xk_kp_1 xk_kp_2 xk_kp_3 xk_kp_4 xk_kp_5 xk_kp_6 xk_kp_7 xk_kp_8 : Keysym
  xk_kp_9 xk_kp_0 xk_kp_separator xk_f13 xk_f14 xk_f15 xk_f16 xk_f17 xk_f18 xk_f19 : Keysym
  xk_f20 xk_f21 xk_f22 xk_f23 xk_f24 xk_menu xk_sys_req xk_control_l xk_shift_l : Keysym
  xk_alt_l xk_super_l xk_control_r xk_shift_r xk_alt_r xk_super_r : Keysym

-- The first match; `none` is its 0.
unfoldable pub character_keysym : Keycode → Option Keysym
character_keysym space = some xk_space
character_keysym exclaim = some xk_exclam
character_keysym quotedbl = some xk_quotedbl
character_keysym hash = some xk_numbersign
character_keysym dollar = some xk_dollar
character_keysym percent = some xk_percent
character_keysym ampersand = some xk_ampersand
character_keysym quote = some xk_apostrophe
character_keysym left_paren = some xk_parenleft
character_keysym right_paren = some xk_parenright
character_keysym asterisk = some xk_asterisk
character_keysym plus = some xk_plus
character_keysym comma = some xk_comma
character_keysym minus = some xk_minus
character_keysym period = some xk_period
character_keysym slash = some xk_slash
character_keysym num0 = some xk_0
character_keysym num1 = some xk_1
character_keysym num2 = some xk_2
character_keysym num3 = some xk_3
character_keysym num4 = some xk_4
character_keysym num5 = some xk_5
character_keysym num6 = some xk_6
character_keysym num7 = some xk_7
character_keysym num8 = some xk_8
character_keysym num9 = some xk_9
character_keysym colon = some xk_colon
character_keysym semicolon = some xk_semicolon
character_keysym less = some xk_less
character_keysym equals = some xk_equal
character_keysym greater = some xk_greater
character_keysym question = some xk_question
character_keysym at = some xk_at
character_keysym left_bracket = some xk_bracketleft
character_keysym backslash = some xk_backslash
character_keysym right_bracket = some xk_bracketright
character_keysym caret = some xk_caret
character_keysym underscore = some xk_underscore
character_keysym backquote = some xk_grave
character_keysym a = some xk_a
character_keysym b = some xk_b
character_keysym c = some xk_c
character_keysym d = some xk_d
character_keysym e = some xk_e
character_keysym f = some xk_f
character_keysym g = some xk_g
character_keysym h = some xk_h
character_keysym i = some xk_i
character_keysym j = some xk_j
character_keysym k = some xk_k
character_keysym l = some xk_l
character_keysym m = some xk_m
character_keysym n = some xk_n
character_keysym o = some xk_o
character_keysym p = some xk_p
character_keysym q = some xk_q
character_keysym r = some xk_r
character_keysym s = some xk_s
character_keysym t = some xk_t
character_keysym u = some xk_u
character_keysym v = some xk_v
character_keysym w = some xk_w
character_keysym x = some xk_x
character_keysym y = some xk_y
character_keysym z = some xk_z
character_keysym _ = none

-- The second match.
unfoldable pub special_keysym : Keycode → Option Keysym
special_keysym backspace = some xk_back_space
special_keysym tab = some xk_tab
special_keysym return = some xk_return
special_keysym escape = some xk_escape
special_keysym delete = some xk_delete
special_keysym caps_lock = some xk_caps_lock
special_keysym f1 = some xk_f1
special_keysym f2 = some xk_f2
special_keysym f3 = some xk_f3
special_keysym f4 = some xk_f4
special_keysym f5 = some xk_f5
special_keysym f6 = some xk_f6
special_keysym f7 = some xk_f7
special_keysym f8 = some xk_f8
special_keysym f9 = some xk_f9
special_keysym f10 = some xk_f10
special_keysym f11 = some xk_f11
special_keysym f12 = some xk_f12
special_keysym print_screen = some xk_print
special_keysym scroll_lock = some xk_scroll_lock
special_keysym pause = some xk_pause
special_keysym insert = some xk_insert
special_keysym home = some xk_home
special_keysym page_up = some xk_page_up
special_keysym end = some xk_end
special_keysym page_down = some xk_page_down
special_keysym right = some xk_right
special_keysym left = some xk_left
special_keysym down = some xk_down
special_keysym up = some xk_up
special_keysym num_lock_clear = some xk_num_lock
special_keysym kp_divide = some xk_kp_divide
special_keysym kp_multiply = some xk_kp_multiply
special_keysym kp_minus = some xk_kp_subtract
special_keysym kp_plus = some xk_kp_add
special_keysym kp_enter = some xk_kp_enter
special_keysym kp1 = some xk_kp_1
special_keysym kp2 = some xk_kp_2
special_keysym kp3 = some xk_kp_3
special_keysym kp4 = some xk_kp_4
special_keysym kp5 = some xk_kp_5
special_keysym kp6 = some xk_kp_6
special_keysym kp7 = some xk_kp_7
special_keysym kp8 = some xk_kp_8
special_keysym kp9 = some xk_kp_9
special_keysym kp0 = some xk_kp_0
special_keysym kp_period = some xk_kp_separator
special_keysym f13 = some xk_f13
special_keysym f14 = some xk_f14
special_keysym f15 = some xk_f15
special_keysym f16 = some xk_f16
special_keysym f17 = some xk_f17
special_keysym f18 = some xk_f18
special_keysym f19 = some xk_f19
special_keysym f20 = some xk_f20
special_keysym f21 = some xk_f21
special_keysym f22 = some xk_f22
special_keysym f23 = some xk_f23
special_keysym f24 = some xk_f24
special_keysym menu = some xk_menu
special_keysym sysreq = some xk_sys_req
special_keysym l_ctrl = some xk_control_l
special_keysym l_shift = some xk_shift_l
special_keysym l_alt = some xk_alt_l
special_keysym l_gui = some xk_super_l
special_keysym r_ctrl = some xk_control_r
special_keysym r_shift = some xk_shift_r
special_keysym r_alt = some xk_alt_r
special_keysym r_gui = some xk_super_r
special_keysym _ = none

-- `xk` are the values of the x11 crate.
module _ (xk : Keysym → ℕ) where
  abbrev pub x11code : Option Keysym → ℕ
  x11code none = 0
  x11code (some keysym) = xk keysym

  unfoldable pub map_special_key : Bool → Keycode → Option ℕ
  unfolding character_keysym special_keysym
  map_special_key alnum_ok keycode =
      if not (x11code (character_keysym keycode) == 0) && alnum_ok
      then some (x11code (character_keysym keycode))
      else if not (x11code (special_keysym keycode) == 0)
      then some (x11code (special_keysym keycode))
      else none
