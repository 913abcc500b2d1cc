-- ===== src/Base/Unified/Logging.antt =====
-- What a call of the synchronous logger writes and counts.
use obs_brutal.Prelude.{
  ℕ, ◌+◌, ◌≤◌, String, ◌≡◌, sym, ap, ◌∙◌, inl, inr, Option, none, some, List, [], ◌∷◌, ◌++◌, map,
  append_assoc, append-nil, arith, ltb, if◌then◌else◌, ltb_of_le, Bool-cases, is_empty, nat_keys,
  string_keys, bytes_keys, insert, insert_all,
}
use obs_brutal.Domain.Level.{Level}
use obs_brutal.Domain.Value.{Value, FieldMap}
use obs_brutal.Domain.Entry.{LogEntry, bare_entry}
use obs_brutal.Base.Unified.{
  World, UnifiedLog, with_field, write_all, inc_count, log_count, new_entry, log, log_entry,
}

-- One write for each sink that is not nil, in order.
abbrev pub live : List (Option ℕ) → List ℕ
live [] = []
live (none ∷ ss) = live ss
live (some s ∷ ss) = s ∷ live ss

abbrev pub to_each : List ℕ → LogEntry → List (ℕ × LogEntry)
to_each ss e = map (λ s. (s, e)) ss

pub write_all_lem :
    (ss : List (Option ℕ)) (e : LogEntry) (w : List (ℕ × LogEntry))
    → write_all ss e w ≡ w ++ to_each (live ss) e
unfolding write_all
write_all_lem [] e w = sym (append-nil w)
write_all_lem (none ∷ ss) e w = write_all_lem ss e w
write_all_lem (some s ∷ ss) e w =
    write_all_lem ss e (w ++ (s, e) ∷ []) ∙ append_assoc w ((s, e) ∷ []) (to_each (live ss) e)

one_entry :
    (ss : List (Option ℕ)) (c : Option ℕ) (lvl : Level) (msg : List ℕ) (now : ℕ) (w : World)
    (fs : FieldMap)
    → (if is_empty fs
        then log_entry ss c (bare_entry lvl msg now) w
        else log_entry ss c (new_entry lvl msg fs now) w)
      ≡ record {
        writes = w.writes ++ to_each (live ss) (new_entry lvl msg fs now);
        counts = inc_count c w.counts;
      }
unfolding log_entry new_entry
one_entry ss c lvl msg now w [] =
    ap (λ ws. record { writes = ws; counts = inc_count c w.counts }) (write_all_lem ss _ w.writes)
one_entry ss c lvl msg now w (f ∷ fs) =
    ap (λ ws. record { writes = ws; counts = inc_count c w.counts }) (write_all_lem ss _ w.writes)

-- A call below the logger's level changes nothing. Any other writes one entry, the same whether or
-- not the logger has fields, to every sink that is not nil, in their order and after all earlier
-- writes, and adds one to the counter of the logger and to no other.
pub log_lem :
    (l : UnifiedLog) (lvl : Level) (msg : List ℕ) (now : ℕ) (w : World)
    → log l lvl msg now w ≡ (
        if ltb lvl l.level then w else record {
          writes = w.writes ++ to_each (live l.sinks) (new_entry lvl msg l.fields now);
          counts = inc_count l.log_count w.counts;
        })
unfolding log
log_lem l lvl msg now w = elim (Bool-cases (ltb lvl l.level)) [
  | inl low ↦ rw low
  | inr enough ↦ rw enough (one_entry l.sinks l.log_count lvl msg now w l.fields)
]

-- A line that is logged through a logger made by `F` counts in the logger that it was made from
-- too, carries the new field beside the old ones, and leaves the old logger's fields alone.
pub log-with_field :
    (k : String) (v : Value) (l : UnifiedLog) (a : ℕ) (lvl : Level) (msg : List ℕ) (now : ℕ)
    (w : World)
    → l.log_count ≡ some a
    → l.level ≤ lvl
    → (log_count l (log (with_field k v l) lvl msg now w) ≡ log_count l w + 1)
      × ((log (with_field k v l) lvl msg now w).writes
          ≡ w.writes
            ++ to_each (live l.sinks) (new_entry lvl msg (insert k v (insert_all l.fields [])) now))
unfolding with_field log_count inc_count
log-with_field k v l a lvl msg now w shared enough =
    (ap (log_count l) written ∙ counted w.counts, ap (λ (u : World). u.writes) written)
  where
    written : log (with_field k v l) lvl msg now w ≡ record {
      writes =
          w.writes
          ++ to_each (live l.sinks) (new_entry lvl msg (insert k v (insert_all l.fields [])) now);
      counts = inc_count l.log_count w.counts;
    }
    written = log_lem (with_field k v l) lvl msg now w ∙ rw (ltb_of_le lvl l.level enough)

    counted :
        (c : ℕ → ℕ)
        → (elim l.log_count [ none ↦ 0 | some b ↦ inc_count l.log_count c b ])
          ≡ (elim l.log_count [ none ↦ 0 | some b ↦ c b ]) + 1
    counted c = ground arith
