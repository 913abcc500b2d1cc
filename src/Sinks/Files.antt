-- ===== src/Sinks/Files.antt =====
-- The file sink with rotation (internal/adapter/outbound/sink/file/optimal.go). A file is the list of
-- the entries in it; of the directory the files with the sink's name are seen: number 0 is the file
-- itself and number `i` its backup `.i`. No one else moves files. Whether opening, renaming and writing
-- work is an argument of each call.
pub mod Rotation
pub mod Retained
use obs_brutal.Prelude.{
  ℕ, zero, suc, ◌+◌, ◌-◌, Bool, true, false, ◌&&◌, Option, none, some, List, [], ◌∷◌, ◌++◌, ltb,
  leb, nat_eq, if◌then◌else◌,
}

abbrev pub Files : Type 0 → Type 0
Files E = ℕ → Option (List E)

-- `opened` is whether `file` is not nil.
pub record FileSink : Type 0 where
  pub opened : Bool
  pub rotate_by_size_bytes : ℕ
  pub max_backups : ℕ

unfoldable pub new_file_sink : FileSink
new_file_sink = record { opened = false; rotate_by_size_bytes = 0; max_backups = 0 }

-- The two numbers that `Configure` takes, when they are above 0.
unfoldable pub configure_rotation : ℕ → ℕ → FileSink → FileSink
configure_rotation size backups s = record s {
  rotate_by_size_bytes = if ltb 0 size then size else s.rotate_by_size_bytes;
  max_backups = if ltb 0 backups then backups else s.max_backups;
}

module _ {E : Type 0} where
  abbrev pub content : Option (List E) → List E
  content none = []
  content (some xs) = xs

  unfoldable pub put : ℕ → Option (List E) → Files E → Files E
  put i c fs j = if nat_eq j i then c else fs j

  -- `os.Rename`: an error when the first file is missing, or for another reason, and else the file under
  -- the new name, in place of one that was there.
  rename_found : Option (List E) → ℕ → ℕ → Files E → Files E
  unfolding put
  rename_found none from to fs = fs
  rename_found (some c) from to fs = put to (some c) (put from none fs)

  unfoldable pub rename : Bool → ℕ → ℕ → Files E → Files E
  unfolding rename_found
  rename false from to fs = fs
  rename true from to fs = rename_found (fs from) from to fs

  -- `rotateFiles`: the loop from `i` on down. `renames` says of which numbers the file can be renamed;
  -- the errors are not looked at.
  unfoldable pub shift_backups : (ℕ → Bool) → ℕ → Files E → Files E
  unfolding rename
  shift_backups renames zero fs = fs
  shift_backups renames (suc i) fs =
      shift_backups renames i (rename (renames (suc i)) (suc i) (suc (suc i)) fs)

  unfoldable pub rotate_files : (ℕ → Bool) → ℕ → Files E → Files E
  rotate_files renames max_backups fs =
      rename (renames 0) 0 1 (shift_backups renames (max_backups - 1) fs)

  -- `openLocked`, when it works: a file that is missing is created.
  unfoldable pub open_locked : Files E → Files E
  unfolding put
  open_locked fs = put 0 (some (content (fs 0))) fs

-- What `Write` meets: whether the first and the second opening and the writing work, and which files
-- can be renamed.
pub record FileEvents : Type 0 where
  pub opens : Bool
  pub reopens : Bool
  pub writes : Bool
  pub renames : ℕ → Bool

-- A sink with its files, and whether `Write` returned no error.
pub record FileState (E : Type 0) : Type 0 where
  pub sink : FileSink
  pub files : Files E

module _ {E : Type 0} where
  -- The last step of `Write`.
  unfoldable pub append_entry : Bool → E → FileState E → FileState E × Bool
  append_entry false x s = (s, false)
  append_entry true x s =
      (record s { files = put 0 (some (content (s.files 0) ++ x ∷ [])) s.files }, true)

  unfoldable pub rotated : (ℕ → Bool) → FileState E → FileState E
  rotated renames s = record {
    sink = record s.sink { opened = false };
    files = rotate_files renames s.sink.max_backups s.files;
  }

  unfoldable pub opened_file : FileState E → FileState E
  opened_file s = record { sink = record s.sink { opened = true }; files = open_locked s.files }

module _ {E : Type 0} (size : E → ℕ) where
  unfoldable pub file_size : List E → ℕ
  file_size [] = 0
  file_size (x ∷ xs) = size x + file_size xs

  -- `Write` with an open file: rotation when the file has reached the size.
  unfoldable pub is_full : FileState E → Bool
  unfolding file_size
  is_full s =
      ltb 0 s.sink.rotate_by_size_bytes
      && leb s.sink.rotate_by_size_bytes (file_size (content (s.files 0)))

  unfoldable pub write_open : FileEvents → E → FileState E → FileState E × Bool
  write_open ev x s =
      if is_full s
      then if ev.reopens
        then append_entry ev.writes x (opened_file (rotated ev.renames s))
        else (rotated ev.renames s, false)
      else append_entry ev.writes x s

  -- `Write` of an entry that is not nil.
  unfoldable pub write_file : FileEvents → E → FileState E → FileState E × Bool
  write_file ev x s =
      if s.sink.opened
      then write_open ev x s
      else if ev.opens
      then write_open ev x (opened_file s)
      else (s, false)

-- `Close`.
unfoldable pub close_file : {E : Type 0} → FileState E → FileState E
close_file s = record s { sink = record s.sink { opened = false } }
