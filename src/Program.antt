-- ===== src/Program.antt =====
-- src/main.cpp but for `main`, which is in Warden/Startup, and the logo.
pub mod Version
use mqttraffic_warden.Common.{
  ℕ, zero, suc, ◌+◌, ◌*◌, ◌/◌, ◌%◌, Bool, true, false, not, Option, none, some, ◌⊎◌, inl, inr, List,
  [], ◌∷◌, ◌++◌, Text, codes, ltb, if◌then◌else◌, Result, ok, throw, ℤ,
}
use mqttraffic_warden.Logging.{
  LogLevel, trace, debug, info, warn, error, critical, off, LogArgument, LogLine,
}

abbrev pub k_program_name : Text
k_program_name = codes "MQTTraffic-Warden"

-- `globalCntrlExit`, and whether `stopHandler` handles SIGINT.
pub record Signals : Type 0 where
  pub global_cntrl_exit : Bool
  pub is_handled : Bool

-- The new state, and the log lines.
unfoldable pub stop_handler : ℤ → Signals → Signals × List LogLine
stop_handler sig s = (
  record { global_cntrl_exit = true; is_handled = true },
  if not s.global_cntrl_exit
      then record {
        level = info;
        format = codes "Exit request received: program stopping";
        arguments = [];
      }
        ∷ []
      else [],
)

-- `std::to_string`: the decimal digits, on fuel.
unfoldable pub digits : ℕ → ℕ → Text
digits zero n = []
digits (suc fuel) n =
    let rest = digits fuel (n / 10) in
    if ltb n 10 then (b'0' + n) ∷ [] else rest ++ (b'0' + n % 10) ∷ []

unfoldable pub to_string : ℕ → Text
unfolding digits
to_string n = digits (suc n) n

-- The three numbers come from the generated version.h.
unfoldable pub version_str : ℕ → ℕ → ℕ → Text
unfolding to_string
version_str version_major version_minor version_patch =
    to_string version_major
    ++ (codes "." ++ (to_string version_minor ++ (codes "." ++ to_string version_patch)))

-- What leaves `loader`. `throw e` of a caught `const std::exception&` throws a copy of the base class.
pub data LoaderException : Type 0 where
  invalid_argument : Text → LoaderException
  exception_copy : LoaderException

-- `open_file` gives the text of a file, `none` where the stream is not good; `extract` is `operator>>` of
-- nlohmann::json. The schema is what is read.
unfoldable pub loader :
    {J : Type 0} → (Text → Result J) → (Text → Option Text) → Text → Text → LoaderException ⊎ J
loader extract open_file uri_url uri_path =
    let filename = codes "./" ++ uri_path in
    elim (open_file filename) [
      | none ↦ inl (
          invalid_argument
            (codes "could not open " ++ (uri_url ++ (codes " tried with " ++ filename))))
      | some text ↦ elim (extract text) [ ok schema ↦ inr schema | throw e ↦ inl exception_copy ]
    ]

pub data Sink : Type 0 where
  stdout_color : Sink
  -- The path, the size of a file in bytes, the number of files, and whether to rotate on opening.
  rotating_file : Text → ℕ → ℕ → Bool → Sink

-- The default logger.
pub record Logger : Type 0 where
  pub sinks : List Sink
  pub level : LogLevel

abbrev pub is_off : LogLevel → Bool
is_off off = true
is_off _ = false

-- `level_of` is `spdlog::level::from_str`. The line goes to the logger before this one.
unfoldable pub init_logger : (Text → LogLevel) → Text → Logger × List LogLine
init_logger level_of p_log_level =
    let log_level = level_of p_log_level in
    (
      record {
        sinks =
            rotating_file (codes "logs/traffic_warden.log") (1024 * 1024) 5 false
            ∷ stdout_color
            ∷ [];
        level = log_level;
      },
      if is_off log_level
          then record { level = warn; format = codes "TrafficWarden log disabled!"; arguments = [] }
            ∷ []
          else [],
    )
