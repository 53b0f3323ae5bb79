-- ===== src/Log.antt =====
-- log/log.go: the root logger, with its encoding, its level and what it writes to. What it does with
-- a message is left out.
pub mod Accepted
use Prim.Native.Char.{Char, code}
use Prim.Native.String
use Prim.Native.String.{String}
use text.Mathlib.Text.{◌==◌}
use covenant.Prelude.{
  ◌-◌, Bool, ◌&&◌, ◌||◌, leb, Option, none, some, List, [], ◌∷◌, errorf_text, Outcome, ok, err,
  if◌then◌else◌,
}
use covenant.Prelude.Exec.{Exec, pure, lift, ◌>>=◌}
use covenant.Util.{Os, make_directory}

-- The encoders of zapcore and of zap-logfmt, with the configuration of the function.
pub data Encoding : Type 0 where
  json_encoding console_encoding logfmt_encoding : Encoding

-- `zapcore.Level`
pub data Level : Type 0 where
  panic_level fatal_level error_level warn_level info_level debug_level : Level

-- What `io.MultiWriter` writes to.
pub data Writer : Type 0 where
  stdout : Writer
  file : String → Writer

pub record Logger : Type 0 where
  pub encoding : Encoding
  pub level : Level
  pub writers : List Writer

-- `unicode.ToLower`, by its table `unicode_lower` above U+007F.
unfoldable pub lower_char : (Char → Char) → Char → Char
lower_char unicode_lower c =
    if leb (code c) 127
    then if leb 65 (code c) && leb (code c) 90
      then String.char_at "abcdefghijklmnopqrstuvwxyz" (code c - 65)
      else c
    else unicode_lower c

-- `strings.ToLower`
unfoldable pub to_lower : (Char → Char) → String → String
unfolding lower_char
to_lower unicode_lower String.[] = ""
to_lower unicode_lower (String.◌∷◌ c text) =
    String.◌∷◌ (lower_char unicode_lower c) (to_lower unicode_lower text)

unfoldable pub encoding_of : String → Option Encoding
encoding_of format =
    if format == "json"
    then some json_encoding
    else if format == "auto" || format == "console"
    then some console_encoding
    else if format == "logfmt"
    then some logfmt_encoding
    else none

unfoldable pub level_of : String → Option Level
level_of name =
    if name == "panic"
    then some panic_level
    else if name == "fatal"
    then some fatal_level
    else if name == "error"
    then some error_level
    else if name == "warn" || name == "warning"
    then some warn_level
    else if name == "info"
    then some info_level
    else if name == "debug"
    then some debug_level
    else none

-- The two `switch`es, the error of the first before that of the second.
abbrev pub with_level : String → List Writer → Encoding → Option Level → Outcome Logger
with_level level writers enc none = err (errorf_text "unsupported log level: %s" level)
with_level level writers enc (some lvl) =
    ok (record { encoding = enc; level = lvl; writers = writers })

abbrev pub with_encoding :
    String → String → List Writer → Option Encoding → Option Level → Outcome Logger
with_encoding format level writers none lvl = err (errorf_text "unrecognized log format %q" format)
with_encoding format level writers (some enc) lvl = with_level level writers enc lvl

unfoldable pub new_root_logger : (Char → Char) → String → String → List Writer → Outcome Logger
new_root_logger unicode_lower format level writers =
    with_encoding format level writers (encoding_of format)
      (level_of (to_lower unicode_lower level))

unfoldable pub new_root_logger_with_file :
    {S : Type 0} → (Char → Char) → Os S → String → String → Exec S Logger
new_root_logger_with_file unicode_lower os log_file level = do
  u ← make_directory os (os.dir log_file)
  v ← os.open_file log_file
  lift (new_root_logger unicode_lower "console" level (stdout ∷ file log_file ∷ []))
