-- ===== src/Domain/EntryPool.antt =====
-- The pool of log entries (internal/core/domain/models.go): a channel of at most `size` entries,
-- used with selects that do not block.
use obs_brutal.Prelude.{
  ℕ, zero, suc, ◌≤◌, inl, inr, Option, none, some, List, [], ◌∷◌, ◌++◌, arith, ltb, if◌then◌else◌,
  ltb→lt, Bool-cases, length, replicate, All, length-snoc, length-replicate, All-append, nat_keys,
  string_keys, bytes_keys,
}
use obs_brutal.Domain.Entry.{
  LogEntry, new_log_entry, reset, IsBlank, new_log_entry-IsBlank, reset-IsBlank,
}

-- The pool and the field-map pool share this shape: the buffered channel and its capacity.
pub record EntryPool : Type 0 where
  pub pool : List LogEntry
  pub size : ℕ

-- `NewLogEntryPool`: the channel is filled before use.
unfoldable pub new_log_entry_pool : ℕ → ℕ → EntryPool
new_log_entry_pool size now = record { pool = replicate size (new_log_entry now); size = size }

-- `Get`: the oldest entry, or a new one where the channel is empty.
abbrev take_entry : ℕ → ℕ → List LogEntry → LogEntry × EntryPool
take_entry now size [] = (new_log_entry now, record { pool = []; size = size })
take_entry now size (le ∷ rest) = (le, record { pool = rest; size = size })

unfoldable pub get : ℕ → EntryPool → LogEntry × EntryPool
get now p = take_entry now p.size p.pool

-- `Put`: nil is ignored, and a reset entry is dropped where the channel is full.
put_entry : LogEntry → EntryPool → EntryPool
put_entry le p =
    if ltb (length p.pool) p.size then record p { pool = p.pool ++ reset le ∷ [] } else p

unfoldable pub put : Option LogEntry → EntryPool → EntryPool
unfolding put_entry
put none p = p
put (some le) p = put_entry le p

-- The calls that the program makes, at their times.
pub data PoolCall : Type 0 where
  gets : ℕ → PoolCall
  puts : Option LogEntry → PoolCall

unfoldable pub call : PoolCall → EntryPool → EntryPool
unfolding get put
call (gets now) p = (get now p).1
call (puts le) p = put le p

unfoldable pub calls : List PoolCall → EntryPool → EntryPool
unfolding call
calls [] p = p
calls (c ∷ cs) p = calls cs (call c p)

-- Every pooled entry is blank, and there are at most `size` of them.
pub record IsClean (p : EntryPool) : Type 0 where
  pub blank : All IsBlank p.pool
  pub fits : length p.pool ≤ p.size

All-replicate : (n : ℕ) (le : LogEntry) → IsBlank le → All IsBlank (replicate n le)
All-replicate zero le h = tt
All-replicate (suc n) le h = (h, All-replicate n le h)

pub new_log_entry_pool-IsClean : (size now : ℕ) → IsClean (new_log_entry_pool size now)
unfolding new_log_entry_pool
new_log_entry_pool-IsClean size now = record {
  blank = All-replicate size (new_log_entry now) (new_log_entry-IsBlank now);
  fits = omega (arith, length-replicate size (new_log_entry now));
}

take_entry-IsClean :
    (now size : ℕ) (es : List LogEntry)
    → All IsBlank es
    → length es ≤ size
    → IsBlank (take_entry now size es).0 × IsClean (take_entry now size es).1
take_entry-IsClean now size [] h f = (new_log_entry-IsBlank now, record { blank = tt; fits = f })
take_entry-IsClean now size (le ∷ rest) h f = (h.0, record { blank = h.1; fits = omega arith })

-- An entry that `Get` hands out is blank, and `Get` keeps the pool clean.
pub get-IsClean :
    (now : ℕ) (p : EntryPool) → IsClean p → IsBlank (get now p).0 × IsClean (get now p).1
unfolding get
get-IsClean now p c = take_entry-IsClean now p.size p.pool c.blank c.fits

pub put-IsClean : (le : Option LogEntry) (p : EntryPool) → IsClean p → IsClean (put le p)
unfolding put
put-IsClean none p c = c
put-IsClean (some le) p c = elim (Bool-cases (ltb (length p.pool) p.size)) [
  | inl room ↦ rw room (record {
    blank = All-append IsBlank p.pool (reset le ∷ []) c.blank (reset-IsBlank le, tt);
    fits = omega (arith, length-snoc p.pool (reset le), ltb→lt _ _ room);
  })
  | inr full ↦ rw full c
]

calls-IsClean : (cs : List PoolCall) (p : EntryPool) → IsClean p → IsClean (calls cs p)
unfolding calls
calls-IsClean [] p c = c
calls-IsClean (gets now ∷ cs) p c = calls-IsClean cs (get now p).1 (get-IsClean now p c).1
calls-IsClean (puts le ∷ cs) p c = calls-IsClean cs (put le p) (put-IsClean le p c)

-- After any calls on a new pool, `Get` hands out an entry that carries nothing of an earlier log
-- line, and the pool holds at most its size.
pub get-calls-IsClean :
    (size made now : ℕ) (cs : List PoolCall)
    → let p = calls cs (new_log_entry_pool size made) in
      IsBlank (get now p).0 × (length (get now p).1.pool ≤ (get now p).1.size)
get-calls-IsClean size made now cs =
    let (blank, clean) =
      get-IsClean now _ (calls-IsClean cs _ (new_log_entry_pool-IsClean size made)) in
    (blank, clean.fits)
