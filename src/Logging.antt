-- ===== src/Logging.antt =====
-- Log lines: the arguments of the calls of spdlog. How spdlog prints a line is not modelled.
use mqttraffic_warden.Common.{ℤ, List, Text}

pub data LogLevel : Type 0 where
  trace debug info warn error critical off : LogLevel

pub data LogArgument : Type 0 where
  of_int : ℤ → LogArgument
  of_text : Text → LogArgument

pub record LogLine : Type 0 where
  pub level : LogLevel
  pub format : Text
  pub arguments : List LogArgument
