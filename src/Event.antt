-- ===== src/Event.antt =====
-- core/event.h: the events that the platform layer delivers.
use retrodesk.Prelude.{ℕ, Bool}
use retrodesk.Prelude.Int.{ℤ}

-- `key_code` is a C int; `ascii` is an unsigned char and `text_codepoint` a uint32_t.
pub record KeyEvent : Type 0 where
  pub key_code : ℤ
  pub is_printable : Bool
  pub ascii : ℕ
  pub text_codepoint : ℕ
  pub modifiers : ℕ

pub record MouseEvent : Type 0 where
  pub y : ℤ
  pub x : ℤ
  pub local_y : ℤ
  pub local_x : ℤ
  pub has_local_coordinates : Bool
  pub moved : Bool
  pub button1_pressed : Bool
  pub button1_released : Bool
  pub button1_clicked : Bool
  pub button1_dblclick : Bool
  pub button3_pressed : Bool
  pub button3_clicked : Bool
  pub scroll_up : Bool
  pub scroll_down : Bool

pub record ResizeEvent : Type 0 where
  pub rows : ℤ
  pub cols : ℤ

-- The tagged union `RetroEvent`; `nothing` is RETRO_EVENT_NONE.
pub data Event : Type 0 where
  nothing : Event
  key : KeyEvent → Event
  mouse : MouseEvent → Event
  resize : ResizeEvent → Event
