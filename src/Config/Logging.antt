-- ===== src/Config/Logging.antt =====
-- media-svc/utils/Logger.cpp: what init takes from the section "log".
use namecon.Common.{
  ℕ, ◌*◌, ◌^◌, ◌<◌, ◌≤◌, ◌≡◌, ◌↔◌, ◌⊎◌, refl, Bool, true, false, ◌&&◌, [], ◌∷◌, Option, none, some,
  ◌==◌, if◌then◌else◌, ltb, leb, arith, inl, inr,
}
use namecon.Common.Bytes.{Bytes}
use namecon.Common.Text.Decimal.{read_int-decimal, decimal_full}
use namecon.Common.Text.{decimal, digits_onto, ascii, bytes_eq, read_int}
use namecon.Config.{SectionInfo, get, last_is, drop_last, is_empty}

pub data Level : Type 0 where
  debug : Level
  info : Level
  warn : Level
  err : Level

-- A signed number: its sign and its size.
abbrev pub Signed : Type 0
Signed = Bool × ℕ

pub record Limits : Type 0 where
  pub max_size : Signed
  pub max_backups : Signed
  pub max_age : Signed

pub record LogSettings : Type 0 where
  pub log_file : Bytes
  pub level : Level
  pub limits : Limits

-- Double quotes round a text of two characters at least.
unfoldable pub strip_quotes : Bytes → Bytes
strip_quotes [] = []
strip_quotes (c ∷ []) = c ∷ []
strip_quotes (c ∷ d ∷ s) = if c == 34 && last_is 34 (d ∷ s) then drop_last (d ∷ s) else c ∷ d ∷ s

unfoldable pub level_of : Bytes → Level
level_of text =
    if bytes_eq text (ascii "debug")
    then debug
    else (if bytes_eq text (ascii "info")
        then info
        else (if bytes_eq text (ascii "warn")
            then warn
            else (if bytes_eq text (ascii "error") then err else info)))

abbrev pub default_limits : Limits
default_limits = record { max_size = (false, 10); max_backups = (false, 5); max_age = (false, 30) }

-- `std::stoi` of a text that is not empty; where it throws, the rest of the block is left out.
abbrev pub stoi_into :
    Option (Bool × ℕ × Bytes) → (Signed → Limits) → Limits → (Limits → Limits) → Limits
stoi_into none set old next = old
stoi_into (some (negative, n, rest)) set old next = next (set (negative, n))

abbrev pub read_into : Bytes → (Signed → Limits) → Limits → (Limits → Limits) → Limits
read_into text set old next =
    if is_empty text then next old else stoi_into (read_int text) set old next

-- The `try` block.
unfoldable pub read_limits : SectionInfo → Limits
read_limits cfg =
    let d = default_limits in
    read_into (get (ascii "log_max_size_mb") cfg) (λ n. record d { max_size = n }) d
      (λ (a : Limits).
        read_into (get (ascii "log_max_backups") cfg) (λ n. record a { max_backups = n }) a
          (λ (b : Limits).
            read_into (get (ascii "log_max_age_days") cfg) (λ n. record b { max_age = n }) b
              (λ (c : Limits). c)))

unfoldable pub init : SectionInfo → LogSettings
init cfg =
    let text = get (ascii "log_level") cfg in
    record {
      log_file = strip_quotes (get (ascii "log_file") cfg);
      level = level_of (strip_quotes (if is_empty text then ascii "info" else text));
      limits = read_limits cfg;
    }

-- `maxSize * 1024 * 1024` of `int`: `none` where the product does not fit.
unfoldable pub file_size : Signed → Option Signed
file_size (negative, n) =
    if (if negative then leb (n * 1048576) (2 ^ 31) else ltb (n * 1048576) (2 ^ 31))
    then some (negative, n * 1048576)
    else none

-- The size of a log file overflows `int` exactly for 2048 megabytes and more, or below -2048.
pub file_size-overflow :
    (negative : Bool) (n : ℕ)
    → (file_size (negative, n) ≡ none)
      ↔ (((negative ≡ false) × (2048 ≤ n)) ⊎ ((negative ≡ true) × (2048 < n)))
unfolding file_size
file_size-overflow true n = (λ e. inr (refl, ground arith), λ h. ground arith)
file_size-overflow false n = (λ e. inl (refl, ground arith), λ h. ground arith)

-- Three limits in decimal are taken as they are.
pub read_limits-decimal :
    (cfg : SectionInfo) (size backups age : ℕ)
    → get (ascii "log_max_size_mb") cfg ≡ decimal size
    → get (ascii "log_max_backups") cfg ≡ decimal backups
    → get (ascii "log_max_age_days") cfg ≡ decimal age
    → size < 2 ^ 31
    → backups < 2 ^ 31
    → age < 2 ^ 31
    → read_limits cfg
      ≡ record { max_size = (false, size); max_backups = (false, backups); max_age = (false, age) }
unfolding read_limits digits_onto
read_limits-decimal cfg size backups age at_size at_backups at_age s b a = rw (
  at_size,
  at_backups,
  at_age,
  decimal_full size,
  decimal_full backups,
  decimal_full age,
  read_int-decimal size [] s refl,
  read_int-decimal backups [] b refl,
  read_int-decimal age [] a refl,
)
