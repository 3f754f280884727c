-- ===== src/Style.antt =====
-- crates/inline/src/style.rs: styled text.
pub mod Encode
pub mod Scan
pub mod Inert
pub mod Adds
pub mod Sequences
pub mod Stripped
use camouflage.Prelude.{ℕ, Bool, Option, List}
use camouflage.Text.{Str}

pub data Color : Type 0 where
  default black red green yellow blue magenta cyan white : Color
  bright_black bright_red bright_green bright_yellow : Color
  bright_blue bright_magenta bright_cyan bright_white : Color
  indexed : ℕ → Color
  rgb : ℕ → ℕ → ℕ → Color

pub record Style : Type 0 where
  pub fg : Color
  pub bg : Color
  pub bold : Bool
  pub dim : Bool
  pub italic : Bool
  pub underline : Bool
  pub strike : Bool
  pub reverse : Bool

pub record Span : Type 0 where
  pub text : Str
  pub style : Style

pub record Line : Type 0 where
  pub spans : List Span
  pub fill : Option Color
