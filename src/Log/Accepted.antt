-- ===== src/Log/Accepted.antt =====
-- Which formats and levels `NewRootLogger` accepts.
use Prim.Native.Char.{Char}
use Prim.Native.String.{String}
use covenant.Prelude.{◌≡◌, refl, ap, ◌↔◌, ◌⊎◌, inl, inr, Option, none, some, List, ok}
use covenant.Prelude.Switch.{switch_case, switch_cases}
use covenant.Prelude.Results.{ok-injective}
use covenant.Log.{
  Encoding, json_encoding, console_encoding, logfmt_encoding, Level, panic_level, fatal_level,
  error_level, warn_level, info_level, debug_level, Writer, Logger, to_lower, encoding_of, level_of,
  with_encoding, new_root_logger,
}

-- The four names of formats and what they stand for.
abbrev pub IsFormat : String → Encoding → Type 0
IsFormat format enc =
    ((format ≡ "json") × (enc ≡ json_encoding))
    ⊎ (((format ≡ "auto") ⊎ (format ≡ "console")) × (enc ≡ console_encoding))
    ⊎ ((format ≡ "logfmt") × (enc ≡ logfmt_encoding))

-- The seven names of levels and what they stand for.
abbrev pub IsLevel : String → Level → Type 0
IsLevel name lvl =
    ((name ≡ "panic") × (lvl ≡ panic_level))
    ⊎ ((name ≡ "fatal") × (lvl ≡ fatal_level))
    ⊎ ((name ≡ "error") × (lvl ≡ error_level))
    ⊎ (((name ≡ "warn") ⊎ (name ≡ "warning")) × (lvl ≡ warn_level))
    ⊎ ((name ≡ "info") × (lvl ≡ info_level))
    ⊎ ((name ≡ "debug") × (lvl ≡ debug_level))

encoding_of-IsFormat :
    (format : String) (enc : Encoding) → encoding_of format ≡ some enc → IsFormat format enc
unfolding encoding_of
encoding_of-IsFormat format enc h = elim (switch_case format _ enc _ "json" h) [
  | inl e ↦ inl e
  | inr h ↦ inr (elim (switch_cases format _ enc _ "auto" "console" h) [
    | inl e ↦ inl e
    | inr h ↦ inr (elim (switch_case format _ enc _ "logfmt" h) [ inl e ↦ e | inr h ↦ cc ])
  ])
]

IsFormat-encoding_of :
    (format : String) (enc : Encoding) → IsFormat format enc → encoding_of format ≡ some enc
unfolding encoding_of
IsFormat-encoding_of format enc (inl (e, k)) = rw (e, k) refl
IsFormat-encoding_of format enc (inr (inl (inl e, k))) = rw (e, k) refl
IsFormat-encoding_of format enc (inr (inl (inr e, k))) = rw (e, k) refl
IsFormat-encoding_of format enc (inr (inr (e, k))) = rw (e, k) refl

level_of-IsLevel : (name : String) (lvl : Level) → level_of name ≡ some lvl → IsLevel name lvl
unfolding level_of
level_of-IsLevel name lvl h = elim (switch_case name _ lvl _ "panic" h) [
  | inl e ↦ inl e
  | inr h ↦ inr (elim (switch_case name _ lvl _ "fatal" h) [
    | inl e ↦ inl e
    | inr h ↦ inr (elim (switch_case name _ lvl _ "error" h) [
      | inl e ↦ inl e
      | inr h ↦ inr (elim (switch_cases name _ lvl _ "warn" "warning" h) [
        | inl e ↦ inl e
        | inr h ↦ inr (elim (switch_case name _ lvl _ "info" h) [
          | inl e ↦ inl e
          | inr h ↦ inr (elim (switch_case name _ lvl _ "debug" h) [ inl e ↦ e | inr h ↦ cc ])
        ])
      ])
    ])
  ])
]

IsLevel-level_of : (name : String) (lvl : Level) → IsLevel name lvl → level_of name ≡ some lvl
unfolding level_of
IsLevel-level_of name lvl (inl (e, k)) = rw (e, k) refl
IsLevel-level_of name lvl (inr (inl (e, k))) = rw (e, k) refl
IsLevel-level_of name lvl (inr (inr (inl (e, k)))) = rw (e, k) refl
IsLevel-level_of name lvl (inr (inr (inr (inl (inl e, k))))) = rw (e, k) refl
IsLevel-level_of name lvl (inr (inr (inr (inl (inr e, k))))) = rw (e, k) refl
IsLevel-level_of name lvl (inr (inr (inr (inr (inl (e, k)))))) = rw (e, k) refl
IsLevel-level_of name lvl (inr (inr (inr (inr (inr (e, k)))))) = rw (e, k) refl

with_encoding-eq-ok :
    (format level : String) (writers : List Writer) (enc : Option Encoding) (lvl : Option Level)
    (logger : Logger)
    → with_encoding format level writers enc lvl ≡ ok logger
    → (enc ≡ some logger.encoding) × (lvl ≡ some logger.level) × (writers ≡ logger.writers)
with_encoding-eq-ok format level writers none lvl logger h = cc
with_encoding-eq-ok format level writers (some enc) none logger h = cc
with_encoding-eq-ok format level writers (some enc) (some lvl) logger h =
    let e = ok-injective h in
    (ap (λ l. some l.encoding) e, ap (λ l. some l.level) e, ap (λ l. l.writers) e)

-- `NewRootLogger` returns a logger exactly when the format is one of its four names and the level,
-- in any case of its letters, one of its seven; the logger then has the encoding and the level of
-- these names and the writers that were given.
pub new_root_logger_iff :
    (unicode_lower : Char → Char) (format level : String) (writers : List Writer) (logger : Logger)
    → (new_root_logger unicode_lower format level writers ≡ ok logger) ↔ (
        IsFormat format logger.encoding
        × IsLevel (to_lower unicode_lower level) logger.level
        × (writers ≡ logger.writers))
unfolding new_root_logger
new_root_logger_iff unicode_lower format level writers logger = (
  λ h.
      let (e, k, same) =
        with_encoding-eq-ok format level writers (encoding_of format)
          (level_of (to_lower unicode_lower level)) logger h in
      (encoding_of-IsFormat format _ e, level_of-IsLevel _ _ k, same),
  λ (f, l, same).
      rw
        (
          IsFormat-encoding_of format logger.encoding f,
          IsLevel-level_of (to_lower unicode_lower level) logger.level l,
          same,
        )
        refl,
)
