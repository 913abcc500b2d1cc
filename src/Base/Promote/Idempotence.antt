-- ===== src/Base/Promote/Idempotence.antt =====
-- `Promote` does nothing to an entry that it has treated.
use obs_brutal.Prelude.{
  ℕ, String, ◌≡◌, refl, ap, ◌∙◌, inl, inr, false, Option, none, some, List, [], ◌∷◌, Option-cases,
  bytes_keys, string_keys, nat_keys, ◌==◌, eq_refl, lookup, erase, lookup-erase, erase_absent,
}
use obs_brutal.Domain.Value.{FieldMap}
use obs_brutal.Domain.Entry.{LogEntry, string_of}
use obs_brutal.Base.Promote.{taken, promote_id, promote_map, promote_fields, promote}
use obs_brutal.Base.Promote.Laws.{lookup-promote_id, m1, m2, m3, m4, m5, m6}

-- Where the second promotion has nothing to take.
abbrev Settled : String → List ℕ → FieldMap → Type 0
Settled k id m = (id ≡ []) → string_of (lookup k m) ≡ none

promote_id-Settled :
    (k : String) (id : List ℕ) (m : FieldMap)
    → let (id', m') = promote_id k id m in Settled k id' m'
unfolding promote_id
promote_id-Settled k [] m = λ _. elim (Option-cases (string_of (lookup k m))) [
  | inl h ↦ rw (h, taken) h
  | inr (s, h) ↦ rw (h, taken) (ap string_of (lookup-erase k k m) ∙ rw (eq_refl k))
]
promote_id-Settled k (c ∷ id) m = λ h. cc

promote_id_again :
    (k : String) (id : List ℕ) (m : FieldMap) → Settled k id m → promote_id k id m ≡ (id, m)
unfolding promote_id
promote_id_again k [] m h = rw (h refl)
promote_id_again k (c ∷ id) m h = refl

promote_map_again :
    (e : LogEntry) (m : FieldMap)
    → Settled "trace_id" e.trace_id m
    → Settled "span_id" e.span_id m
    → Settled "request_id" e.request_id m
    → Settled "user_id" e.user_id m
    → Settled "module" e.mod_name m
    → Settled "tenant_id" e.tenant_id m
    → promote_map e m ≡ record e { fields = some (erase "context" m) }
unfolding promote_map
promote_map_again e m h1 h2 h3 h4 h5 h6 = rw (
  promote_id_again "trace_id" e.trace_id m h1,
  promote_id_again "span_id" e.span_id m h2,
  promote_id_again "request_id" e.request_id m h3,
  promote_id_again "user_id" e.user_id m h4,
  promote_id_again "module" e.mod_name m h5,
  promote_id_again "tenant_id" e.tenant_id m h6,
)

Settled-same :
    (k : String) (id : List ℕ) (m m' : FieldMap)
    → lookup k m' ≡ lookup k m
    → Settled k id m
    → Settled k id m'
Settled-same k id m m' h s e = ap string_of h ∙ s e

promote_map_idem :
    (e : LogEntry) (m : FieldMap)
    → promote_map (promote_map e m) (erase "context" (m6 e m)) ≡ promote_map e m
unfolding promote_map
promote_map_idem e m0 =
    promote_map_again (promote_map e m0) (erase "context" (m6 e m0)) s1 s2 s3 s4 s5 s6
    ∙ rw (
        erase_absent "context" (erase "context" (m6 e m0))
          (lookup-erase "context" "context" (m6 e m0)))
  where
    last :
        (k : String)
        → ("context" == k) ≡ false
        → lookup k (erase "context" (m6 e m0)) ≡ lookup k (m6 e m0)
    last k h = lookup-erase "context" k (m6 e m0) ∙ rw h

    s6 : Settled "tenant_id" (promote_map e m0).tenant_id (erase "context" (m6 e m0))
    s6 =
        Settled-same "tenant_id" _ (m6 e m0) _ (last "tenant_id" refl)
          (promote_id-Settled "tenant_id" e.tenant_id (m5 e m0))

    past6 :
        (k : String)
        → ("context" == k) ≡ false
        → ("tenant_id" == k) ≡ false
        → lookup k (erase "context" (m6 e m0)) ≡ lookup k (m5 e m0)
    past6 k h i = last k h ∙ lookup-promote_id "tenant_id" k e.tenant_id (m5 e m0) i

    s5 : Settled "module" (promote_map e m0).mod_name (erase "context" (m6 e m0))
    s5 =
        Settled-same "module" _ (m5 e m0) _ (past6 "module" refl refl)
          (promote_id-Settled "module" e.mod_name (m4 e m0))

    past5 :
        (k : String)
        → lookup k (erase "context" (m6 e m0)) ≡ lookup k (m5 e m0)
        → ("module" == k) ≡ false
        → lookup k (erase "context" (m6 e m0)) ≡ lookup k (m4 e m0)
    past5 k h i = h ∙ lookup-promote_id "module" k e.mod_name (m4 e m0) i

    s4 : Settled "user_id" (promote_map e m0).user_id (erase "context" (m6 e m0))
    s4 =
        Settled-same "user_id" _ (m4 e m0) _ (past5 "user_id" (past6 "user_id" refl refl) refl)
          (promote_id-Settled "user_id" e.user_id (m3 e m0))

    past4 :
        (k : String)
        → lookup k (erase "context" (m6 e m0)) ≡ lookup k (m4 e m0)
        → ("user_id" == k) ≡ false
        → lookup k (erase "context" (m6 e m0)) ≡ lookup k (m3 e m0)
    past4 k h i = h ∙ lookup-promote_id "user_id" k e.user_id (m3 e m0) i

    s3 : Settled "request_id" (promote_map e m0).request_id (erase "context" (m6 e m0))
    s3 =
        Settled-same "request_id" _ (m3 e m0) _
          (past4 "request_id" (past5 "request_id" (past6 "request_id" refl refl) refl) refl)
          (promote_id-Settled "request_id" e.request_id (m2 e m0))

    past3 :
        (k : String)
        → lookup k (erase "context" (m6 e m0)) ≡ lookup k (m3 e m0)
        → ("request_id" == k) ≡ false
        → lookup k (erase "context" (m6 e m0)) ≡ lookup k (m2 e m0)
    past3 k h i = h ∙ lookup-promote_id "request_id" k e.request_id (m2 e m0) i

    s2 : Settled "span_id" (promote_map e m0).span_id (erase "context" (m6 e m0))
    s2 =
        Settled-same "span_id" _ (m2 e m0) _
          (past3 "span_id" (past4 "span_id" (past5 "span_id" (past6 "span_id" refl refl) refl) refl)
            refl)
          (promote_id-Settled "span_id" e.span_id (m1 e m0))

    s1 : Settled "trace_id" (promote_map e m0).trace_id (erase "context" (m6 e m0))
    s1 =
        Settled-same "trace_id" _ (m1 e m0) _
          (past3 "trace_id"
              (past4 "trace_id" (past5 "trace_id" (past6 "trace_id" refl refl) refl) refl) refl
            ∙ lookup-promote_id "span_id" "trace_id" e.span_id (m1 e m0) refl)
          (promote_id-Settled "trace_id" e.trace_id m0)

promote_fields_twice :
    (e : LogEntry) (o : Option FieldMap)
    → e.fields ≡ o
    → promote_fields (promote_fields e o) (promote_fields e o).fields ≡ promote_fields e o
unfolding promote_fields
promote_fields_twice e none h = ap (promote_fields e) h
promote_fields_twice e (some m) h = promote_map_idem e m

-- Promoting a promoted entry changes nothing: it is idempotent.
pub promote_idem : (e : LogEntry) → promote (promote e) ≡ promote e
unfolding promote
promote_idem e = promote_fields_twice e e.fields refl
