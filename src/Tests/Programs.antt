-- ===== src/Tests/Programs.antt =====
-- The functions of src/main.cpp and the log lines of the callbacks, at concrete inputs.
use mqttraffic_warden.Common.{
  ◌≡◌, refl, true, false, none, some, inl, inr, [], ◌∷◌, Option, Text, codes, if◌then◌else◌, str_eq,
  pos, length, arith,
}
use mqttraffic_warden.Logging.{LogLevel, trace, info, warn, error, off, of_int, of_text}
use mqttraffic_warden.Client.Logs.{line, on_failure, on_success, delivery_complete}
use mqttraffic_warden.Program.{
  stop_handler, version_str, loader, invalid_argument, exception_copy, init_logger,
}
use mqttraffic_warden.Sample.Value.{obj, end, sample_json}

listener_lines :
    (on_failure (record { message_id = pos 7; topics = none })
      ≡ line error (codes "Subscription failure") []
        ∷ line error (codes " for token: [{}]") (of_int (pos 7) ∷ [])
        ∷ [])
    × (on_success (record { message_id = pos 0; topics = some (codes "a" ∷ []) })
        ≡ line info (codes "Successfully subscribed") []
          ∷ line info (codes "\ttoken topic: '{}', ...") (of_text (codes "a") ∷ [])
          ∷ [])
unfolding on_failure on_success
listener_lines = (refl, refl)

null_token : delivery_complete none ≡ none
unfolding delivery_complete
null_token = refl

tab_is_one_byte : length (codes "\t'") ≡ 2
tab_is_one_byte = omega arith

one_stop :
    ((stop_handler (pos 2) (record { global_cntrl_exit = true; is_handled = true })).1 ≡ [])
    × ((stop_handler (pos 2) (record { global_cntrl_exit = false; is_handled = true })).0
        ≡ record { global_cntrl_exit = true; is_handled = true })
unfolding stop_handler
one_stop = (refl, refl)

version : version_str 0 12 305 ≡ codes "0.12.305"
unfolding version_str
version = refl

abbrev one_file : Text → Option Text
one_file name = if str_eq name (codes "./routes.json") then some (codes "{}") else none

loads :
    (loader sample_json.parse one_file (codes "u") (codes "routes.json") ≡ inr (obj end))
    × (loader sample_json.parse one_file (codes "u") (codes "x")
        ≡ inl (invalid_argument (codes "could not open u tried with ./x")))
    × (loader sample_json.parse (λ name. some (codes "{")) (codes "u") (codes "x")
        ≡ inl exception_copy)
unfolding loader
loads = (refl, refl, refl)

abbrev level_of : Text → LogLevel
level_of s = if str_eq s (codes "trace") then trace else off

logger_levels :
    ((init_logger level_of (codes "trace")).1 ≡ [])
    × ((init_logger level_of (codes "loud")).1
        ≡ line warn (codes "TrafficWarden log disabled!") [] ∷ [])
unfolding init_logger
logger_levels = (refl, refl)
