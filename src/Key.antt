-- ===== src/Key.antt =====
-- crates/inline/src/session.rs: a key press, independent of the terminal library.
use camouflage.Prelude.{ℕ, Bool}
use camouflage.Text.{Str}

pub data Key : Type 0 where
  text paste : Str → Key
  -- With shift, with alt.
  enter : Bool → Bool → Key
  esc tab back_tab up down page_up page_down home end : Key
  -- By word.
  left right backspace delete : Bool → Key
  ctrl : ℕ → Key
