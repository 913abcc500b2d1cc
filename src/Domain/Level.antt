-- ===== src/Domain/Level.antt =====
-- Severity levels of internal/core/domain/models.go. A level is Go's `int`, here a number that is
-- not negative.
use obs_brutal.Prelude.{
  ℕ, zero, suc, ◌<◌, ◌≡◌, ◌||◌, List, map, arith, leb, nat_eq, if◌then◌else◌, nat_keys, string_keys,
  bytes_eq, bytes_keys, codes, to_lower,
}

abbrev pub Level : Type 0
Level = ℕ

abbrev pub debug_level : Level
debug_level = 0

abbrev pub info_level : Level
info_level = 1

abbrev pub warn_level : Level
warn_level = 2

abbrev pub error_level : Level
error_level = 3

abbrev pub fatal_level : Level
fatal_level = 4

-- `Level.String`.
unfoldable pub level_string : Level → List ℕ
level_string l =
    if nat_eq l debug_level
    then codes "DEBUG"
    else if nat_eq l info_level
    then codes "INFO"
    else if nat_eq l warn_level
    then codes "WARN"
    else if nat_eq l error_level
    then codes "ERROR"
    else if nat_eq l fatal_level
    then codes "FATAL"
    else codes "UNKNOWN"

-- The `switch` of `ParseLevelString` on the lower-case word.
parse_word : List ℕ → Level
parse_word s =
    if bytes_eq s (codes "debug")
    then debug_level
    else if bytes_eq s (codes "info")
    then info_level
    else if bytes_eq s (codes "warn") || bytes_eq s (codes "warning")
    then warn_level
    else if bytes_eq s (codes "error")
    then error_level
    else if bytes_eq s (codes "fatal")
    then fatal_level
    else info_level

pub parse_level_string : List ℕ → Level
unfolding parse_word
parse_level_string s = parse_word (map to_lower s)

level_string_unknown : (l : Level) → fatal_level < l → level_string l ≡ codes "UNKNOWN"
unfolding level_string
level_string_unknown l h = ground arith

-- Parsing the name of a level, in whatever case it is written, gives the level back, and a name
-- that no level has gives the info level.
pub parse_level_string-level_string :
    (l : Level) (s : List ℕ)
    → map to_lower s ≡ map to_lower (level_string l)
    → parse_level_string s ≡ (if leb l fatal_level then l else info_level)
unfolding parse_level_string level_string
parse_level_string-level_string zero s h = rw h
parse_level_string-level_string (suc zero) s h = rw h
parse_level_string-level_string (suc (suc zero)) s h = rw h
parse_level_string-level_string (suc (suc (suc zero))) s h = rw h
parse_level_string-level_string (suc (suc (suc (suc zero)))) s h = rw h
parse_level_string-level_string (suc (suc (suc (suc (suc l))))) s h =
    rw (h, level_string_unknown (suc (suc (suc (suc (suc l))))) (omega arith)) (ground arith)
