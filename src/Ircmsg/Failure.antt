-- ===== src/Ircmsg/Failure.antt =====
-- `ParseError` of `src/error.rs`. The text of `InvalidField` is a datum for each message.
use vinezombie.Prelude.{ℕ, Bytes}
use vinezombie.Text.Kinds.{InvalidString}

pub data FieldError : Type 0 where
  missing_open empty_after_open missing_close : FieldError
  duplicate_mode duplicate_prefix : ℕ → FieldError
  unknown_subcmd not_a_star : Bytes → FieldError

pub data ParseError : Type 0 where
  too_long : ParseError
  missing_field : Bytes → ParseError
  invalid_field : FieldError → ParseError
  invalid_line invalid_nick invalid_user invalid_host invalid_kind : InvalidString → ParseError
