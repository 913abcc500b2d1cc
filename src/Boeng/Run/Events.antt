-- ===== src/Boeng/Run/Events.antt =====
-- What an event leaves in the subject that it is given (boeng/run.go, `Emit`).
use obs_brutal.Prelude.{
  ℕ, String, ◌≡◌, ap, ◌∙◌, subst, Bool, Option, none, some, List, [], bytes_keys, string_keys,
  nat_keys, prefer, lookup, insert, IsMap, lookup-insert, lookup-insert_all, insert-IsMap,
}
use obs_brutal.Domain.Value.{Value, FieldMap, text}
use obs_brutal.Boeng.Fields.{Subject, nothing, fields, extract_fields}
use obs_brutal.Boeng.Metrics.{Metrics}
use obs_brutal.Boeng.Run.{Process, OpState, op_fields, event_fields, emit_fields, emit}

subject_after : Option (Process × Subject) → Subject
subject_after none = nothing
subject_after (some (q, s)) = s

op_fields_event :
    (include_zero : Bool) (name op : List ℕ) (m : FieldMap)
    → IsMap m
    → lookup "event" (op_fields include_zero op (fields (some (insert "event" (text name) m))))
      ≡ some (text name)
unfolding op_fields extract_fields
op_fields_event include_zero name op m h =
    let own = insert "op" (text op) [] in
    lookup-insert_all "event" (insert "event" (text name) m) own (insert-IsMap "event" _ m h)
    ∙ ap (λ v. prefer v (lookup "event" own)) (lookup-insert "event" "event" (text name) m)

-- An event whose subject is a map leaves its name in that map: an operation that is started later
-- with the same map has the field `event` with this name, which it was never given.
pub emit-op_fields :
    (makes : List ℕ → Bool) (between : Metrics → Metrics) (show : Value → String)
    (st : Option OpState) (foreign : Option (List ℕ × List ℕ)) (name op : List ℕ) (m : FieldMap)
    (now : ℕ) (p q : Process) (s : Subject) (include_zero : Bool)
    → IsMap m
    → emit makes between show st foreign name (fields (some m)) now p ≡ some (q, s)
    → lookup "event" (op_fields include_zero op s) ≡ some (text name)
unfolding emit event_fields emit_fields subject_after
emit-op_fields makes between show st foreign name op m now p q s include_zero h e =
    subst (λ t. lookup "event" (op_fields include_zero op t) ≡ some (text name))
      (ap subject_after e) (op_fields_event include_zero name op m h)
