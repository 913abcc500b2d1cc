-- ===== src/Sinks/Files/Retained.antt =====
-- What the file and its backups hold (internal/adapter/outbound/sink/file/optimal.go).
use obs_brutal.Prelude.{
  ℕ, zero, suc, ◌-◌, ◌≤◌, ◌<◌, ◌≡◌, refl, sym, ap, ◌∙◌, subst, ◌≢◌, inl, inr, Bool, true, false,
  ◌&&◌, Option, none, some, List, [], ◌∷◌, ◌++◌, append_assoc, append-nil, arith, ltb, leb,
  if◌then◌else◌, Bool-cases, All,
}
use obs_brutal.Sinks.Files.{
  Files, FileState, FileEvents, content, put, shift_backups, rotate_files, open_locked, file_size,
  append_entry, is_full, rotated, opened_file, write_open, write_file, close_file,
}
use obs_brutal.Sinks.Files.Rotation.{
  always, rotate_files-always, IsGapless, put-same, put-other, rename-from, rename-to, rename-other,
  shift_backups-IsShifted,
}

module _ {E : Type 0} where
  -- The backups from number `m` down to 1 and the file itself: the oldest entries first.
  abbrev pub backlog : ℕ → Files E → List E
  backlog zero fs = content (fs 0)
  backlog (suc m) fs = content (fs (suc m)) ++ backlog m fs

  -- What a rotation with `k` moved backups does, when there is a file.
  record IsRotated (k : ℕ) (fs gs : Files E) : Type 0 where
    emptied : gs 0 ≡ none
    first : gs 1 ≡ fs 0
    moved : (i : ℕ) → i < k → gs (suc (suc i)) ≡ fs (suc i)

  rotate_files-IsRotated :
      (n : ℕ) (fs : Files E) (c : List E)
      → fs 0 ≡ some c
      → IsGapless (n - 1) fs
      → IsRotated (n - 1) fs (rotate_files always n fs)
  unfolding rotate_files
  rotate_files-IsRotated n fs c live gapless =
      let gs = shift_backups always (n - 1) fs in
      let shifted = shift_backups-IsShifted (n - 1) fs gapless in
      record {
        emptied = rename-from 0 1 gs (λ e. omega (arith, e));
        first =
            rename-to 0 1 gs (λ e. absurd (some_file (sym live ∙ sym shifted.live ∙ e)))
            ∙ shifted.live;
        moved = λ i low.
            rename-other 0 1 (suc (suc i)) gs (λ e. omega (arith, e)) (λ e. omega (arith, e))
            ∙ shifted.moved i low;
      }
    where
      some_file : some c ≢ none
      some_file e = cc

  backlog-IsRotated :
      (k m : ℕ) (fs gs : Files E) → m ≤ k → IsRotated k fs gs → backlog (suc m) gs ≡ backlog m fs
  backlog-IsRotated k zero fs gs h r = rw (r.first, r.emptied) (append-nil (content (fs 0)))
  backlog-IsRotated k (suc m) fs gs h r =
      rw (r.moved m (omega arith))
        (ap (λ xs. content (fs (suc m)) ++ xs) (backlog-IsRotated k m fs gs (omega arith) r))

  IsRotated-IsGapless :
      (k : ℕ) (fs gs : Files E) (c : List E)
      → fs 0 ≡ some c
      → IsGapless k fs
      → IsRotated k fs gs
      → IsGapless k gs
  IsRotated-IsGapless k fs gs c live h r zero low gone =
      absurd (some_file (sym live ∙ sym r.first ∙ gone))
    where
      some_file : some c ≢ none
      some_file e = cc
  IsRotated-IsGapless k fs gs c live h r (suc i) low gone =
      r.moved (suc i) low ∙ h i (omega arith) (sym (r.moved i (omega arith)) ∙ gone)

  -- A new file under the name changes no backup.
  backlog-put :
      (m : ℕ) (xs : List E) (fs : Files E) (ys : List E)
      → xs ≡ content (fs 0) ++ ys
      → backlog m (put 0 (some xs) fs) ≡ backlog m fs ++ ys
  backlog-put zero xs fs ys h = rw (put-same 0 (some xs) fs) h
  backlog-put (suc m) xs fs ys h = rw (put-other 0 (suc m) (some xs) fs (λ e. omega (arith, e))) (
      ap (λ zs. content (fs (suc m)) ++ zs) (backlog-put m xs fs ys h)
      ∙ sym (append_assoc (content (fs (suc m))) (backlog m fs) ys))

  put-IsGapless :
      (k : ℕ) (c : Option (List E)) (fs : Files E) → IsGapless k fs → IsGapless k (put 0 c fs)
  put-IsGapless k c fs h i low gone =
      put-other 0 (suc (suc i)) c fs (λ e. omega (arith, e))
      ∙ h i low (sym (put-other 0 (suc i) c fs (λ e. omega (arith, e))) ∙ gone)

  -- The files hold the end of what was accepted.
  pub record IsKept (k : ℕ) (accepted : List E) (s : FileState E) : Type 0 where
    pub same_backups : s.sink.max_backups - 1 ≡ k
    pub gapless : IsGapless k s.files
    pub rotated_out : List E
    pub held : accepted ≡ rotated_out ++ backlog (suc k) s.files

  opened_file-IsKept :
      (k : ℕ) (accepted : List E) (s : FileState E)
      → IsKept k accepted s
      → IsKept k accepted (opened_file s)
  unfolding opened_file open_locked
  opened_file-IsKept k accepted s h = record {
    same_backups = h.same_backups;
    gapless = put-IsGapless k _ s.files h.gapless;
    rotated_out = h.rotated_out;
    held =
        h.held
        ∙ ap (λ xs. h.rotated_out ++ xs)
            (sym (
              backlog-put (suc k) (content (s.files 0)) s.files []
                (sym (append-nil (content (s.files 0))))
              ∙ append-nil (backlog (suc k) s.files)));
  }

  append_entry-IsKept :
      (works : Bool) (x : E) (k : ℕ) (accepted : List E) (s : FileState E)
      → IsKept k accepted s
      → (let r = append_entry works x s in
          IsKept k (if r.1 then accepted ++ x ∷ [] else accepted) r.0)
  unfolding append_entry
  append_entry-IsKept false x k accepted s h = h
  append_entry-IsKept true x k accepted s h = record {
    same_backups = h.same_backups;
    gapless = put-IsGapless k _ s.files h.gapless;
    rotated_out = h.rotated_out;
    held =
        ap (λ xs. xs ++ x ∷ []) h.held
        ∙ append_assoc h.rotated_out (backlog (suc k) s.files) (x ∷ [])
        ∙ ap (λ xs. h.rotated_out ++ xs)
            (sym (backlog-put (suc k) (content (s.files 0) ++ x ∷ []) s.files (x ∷ []) refl));
  }

  rotated-IsKept :
      (renames : ℕ → Bool) (k : ℕ) (accepted c : List E) (s : FileState E)
      → ((i : ℕ) → renames i ≡ true)
      → s.files 0 ≡ some c
      → IsKept k accepted s
      → IsKept k accepted (rotated renames s)
  unfolding rotated
  rotated-IsKept renames k accepted c s can live h =
      let n = s.sink.max_backups in
      let gs = rotate_files renames n s.files in
      let gapless = subst (λ j. IsGapless j s.files) (sym h.same_backups) h.gapless in
      let r =
        subst (λ j. IsRotated j s.files gs) h.same_backups
          (subst (IsRotated (n - 1) s.files) (sym (rotate_files-always renames n s.files can))
            (rotate_files-IsRotated n s.files c live gapless)) in
      record {
        same_backups = h.same_backups;
        gapless = IsRotated-IsGapless k s.files gs c live h.gapless r;
        rotated_out = h.rotated_out ++ content (s.files (suc k));
        held =
            h.held
            ∙ sym (append_assoc h.rotated_out (content (s.files (suc k))) (backlog k s.files))
            ∙ ap (λ xs. (h.rotated_out ++ content (s.files (suc k))) ++ xs)
                (sym (backlog-IsRotated k k s.files gs (omega arith) r));
      }

module _ {E : Type 0} (size : E → ℕ) where
  -- A full file is one that is there.
  is_full_file : (s : FileState E) → is_full size s ≡ true → (c : List E) × (s.files 0 ≡ some c)
  unfolding is_full file_size
  is_full_file s h = found (s.files 0) refl
    where
      found : (o : Option (List E)) → s.files 0 ≡ o → (c : List E) × (s.files 0 ≡ some c)
      found (some c) e = (c, e)
      found none e =
          let nothing_there : (ltb 0 s.sink.rotate_by_size_bytes
                && leb s.sink.rotate_by_size_bytes 0)
              ≡ true =
            ap
              (λ o.
                ltb 0 s.sink.rotate_by_size_bytes
                && leb s.sink.rotate_by_size_bytes (file_size size (content o)))
              (sym e)
            ∙ h in
          absurd (ground (arith, nothing_there))

  -- What is accepted after a call.
  abbrev accept : List E → E → Bool → List E
  accept accepted x ok = if ok then accepted ++ x ∷ [] else accepted

  write_open-IsKept :
      (ev : FileEvents) (x : E) (k : ℕ) (accepted : List E) (s : FileState E)
      → ((i : ℕ) → ev.renames i ≡ true)
      → IsKept k accepted s
      → (let r = write_open size ev x s in IsKept k (accept accepted x r.1) r.0)
  unfolding write_open
  write_open-IsKept ev x k accepted s can h = elim (Bool-cases (is_full size s)) [
    | inl full ↦
        let file = is_full_file s full in
        let turned = rotated-IsKept ev.renames k accepted file.0 s can file.1 h in
        elim (Bool-cases ev.reopens) [
          | inl again ↦
              rw (full, again)
                (append_entry-IsKept ev.writes x k accepted (opened_file (rotated ev.renames s))
                  (opened_file-IsKept k accepted (rotated ev.renames s) turned))
          | inr never ↦ rw (full, never) turned
        ]
    | inr room ↦ rw room (append_entry-IsKept ev.writes x k accepted s h)
  ]

  write_file-IsKept :
      (ev : FileEvents) (x : E) (k : ℕ) (accepted : List E) (s : FileState E)
      → ((i : ℕ) → ev.renames i ≡ true)
      → IsKept k accepted s
      → (let r = write_file size ev x s in IsKept k (accept accepted x r.1) r.0)
  unfolding write_file
  write_file-IsKept ev x k accepted s can h = elim (Bool-cases s.sink.opened) [
    | inl ready ↦ simp ready (write_open-IsKept ev x k accepted s can h)
    | inr closed ↦ elim (Bool-cases ev.opens) [
      | inl works ↦
          simp (closed, works)
            (write_open-IsKept ev x k accepted (opened_file s) can
              (opened_file-IsKept k accepted s h))
      | inr fails ↦ simp (closed, fails) h
    ]
  ]

-- Calls of `Write` and `Close`.
pub data FileCall (E : Type 0) : Type 0 where
  writes_entry : FileEvents → E → FileCall E
  closes_file : FileCall E

-- No rename of the call's rotation fails on a file that is there.
abbrev pub CanRename : {E : Type 0} → FileCall E → Type 0
CanRename (writes_entry ev x) = (i : ℕ) → ev.renames i ≡ true
CanRename closes_file = Unit

module _ {E : Type 0} (size : E → ℕ) where
  -- The state and what was accepted, in order.
  unfoldable pub file_call : FileCall E → FileState E × List E → FileState E × List E
  file_call (writes_entry ev x) r =
      let w = write_file size ev x r.0 in (w.0, if w.1 then r.1 ++ x ∷ [] else r.1)
  file_call closes_file r = (close_file r.0, r.1)

  unfoldable pub file_calls : List (FileCall E) → FileState E × List E → FileState E × List E
  file_calls [] r = r
  file_calls (c ∷ cs) r = file_calls cs (file_call c r)

  -- A rotating file and its backups hold, without a gap and in order, the last of all entries whose
  -- `Write` reported no error: from files with no gap among the backups, after any writes and closes
  -- with any failures to open, to open again and to write, as long as files that are there can be
  -- renamed, the entries from the last backup to the
  -- file are what is left when some of the first accepted ones are taken away.
  pub file_calls-IsKept :
      (cs : List (FileCall E)) (k : ℕ) (accepted : List E) (s : FileState E)
      → All CanRename cs
      → IsKept k accepted s
      → (let r = file_calls cs (s, accepted) in IsKept k r.1 r.0)
  unfolding file_calls file_call close_file
  file_calls-IsKept [] k accepted s can h = h
  file_calls-IsKept (writes_entry ev x ∷ cs) k accepted s can h =
      file_calls-IsKept cs k _ _ can.1 (write_file-IsKept size ev x k accepted s can.0 h)
  file_calls-IsKept (closes_file ∷ cs) k accepted s can h =
      file_calls-IsKept cs k accepted (close_file s) can.1 record {
        same_backups = h.same_backups;
        gapless = h.gapless;
        rotated_out = h.rotated_out;
        held = h.held;
      }
