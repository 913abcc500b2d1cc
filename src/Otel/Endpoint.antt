-- ===== src/Otel/Endpoint.antt =====
-- Where telemetry goes (internal/adapter/outbound/otel/provider.go): whether a process exports at all,
-- and the host and the transport that an endpoint stands for.
use obs_brutal.Prelude.{
  ℕ, String, ◌≡◌, refl, sym, ap, ◌∙◌, ◌≢◌, ◌⊎◌, inl, inr, Bool, true, false, not, List, [], ◌∷◌,
  ◌++◌, arith, nat_eq, if◌then◌else◌, Bool-cases, length, is_empty, drop, any, All, codes,
  has_prefix,
}

abbrev pub otlp_env_keys : List String
otlp_env_keys =
    "OTEL_EXPORTER_OTLP_ENDPOINT" ∷ "OTEL_EXPORTER_OTLP_TRACES_ENDPOINT"
    ∷ "OTEL_EXPORTER_OTLP_METRICS_ENDPOINT" ∷ []

-- `ExportConfigured`, with the environment of the process.
unfoldable pub export_configured : (String → List ℕ) → List ℕ → Bool
export_configured getenv endpoint =
    if not (is_empty endpoint) then true else any (λ k. not (is_empty (getenv k))) otlp_env_keys

-- `host[:i]` up to the first slash.
unfoldable pub before_slash : List ℕ → List ℕ
before_slash [] = []
before_slash (c ∷ s) = let rest = before_slash s in if nat_eq c b'/' then [] else c ∷ rest

abbrev pub https_scheme : List ℕ
https_scheme = codes "https://"

abbrev pub http_scheme : List ℕ
http_scheme = codes "http://"

-- The switch of `resolveEndpoint`: the text behind the scheme, and whether the transport is plain.
split_scheme : List ℕ → List ℕ × Bool
split_scheme endpoint =
    if is_empty endpoint
    then ([], true)
    else if has_prefix endpoint https_scheme
    then (drop (length https_scheme) endpoint, false)
    else if has_prefix endpoint http_scheme
    then (drop (length http_scheme) endpoint, true)
    else (endpoint, true)

-- `resolveEndpoint`.
unfoldable pub resolve_endpoint : List ℕ → List ℕ × Bool
unfolding split_scheme before_slash
resolve_endpoint endpoint = let split = split_scheme endpoint in (before_slash split.0, split.1)

-- A text is empty or begins with a slash.
abbrev pub IsPathOrNothing : List ℕ → Type 0
IsPathOrNothing [] = Unit
IsPathOrNothing (c ∷ s) = c ≡ b'/'

-- How the transport follows from the scheme.
abbrev pub IsTransport : List ℕ → List ℕ → Bool → Type 0
IsTransport endpoint scheme insecure =
    ((scheme ≡ https_scheme) × (insecure ≡ false))
    ⊎ ((scheme ≡ http_scheme) × (insecure ≡ true))
    ⊎ ((scheme ≡ [])
        × (insecure ≡ true)
        × (has_prefix endpoint https_scheme ≡ false)
        × (has_prefix endpoint http_scheme ≡ false))

-- The endpoint is the scheme, the host and a path that may be missing, and the host has no slash. The
-- transport is TLS for the scheme of https, and plain for that of http and for no scheme.
pub record IsTarget (endpoint host : List ℕ) (insecure : Bool) : Type 0 where
  pub scheme : List ℕ
  pub path : List ℕ
  pub parts : endpoint ≡ scheme ++ (host ++ path)
  pub no_slash : All (λ c. c ≢ b'/') host
  pub path_lem : IsPathOrNothing path
  pub transport : IsTransport endpoint scheme insecure

after_slash : List ℕ → List ℕ
after_slash [] = []
after_slash (c ∷ s) = let rest = after_slash s in if nat_eq c b'/' then c ∷ s else rest

before_slash-append : (s : List ℕ) → before_slash s ++ after_slash s ≡ s
unfolding before_slash after_slash
before_slash-append [] = refl
before_slash-append (c ∷ s) = ground (arith, before_slash-append s)

before_slash-All : (s : List ℕ) → All (λ c. c ≢ b'/') (before_slash s)
unfolding before_slash
before_slash-All [] = tt
before_slash-All (c ∷ s) = elim (Bool-cases (nat_eq c b'/')) [
  | inl slash ↦ rw slash tt
  | inr plain ↦ rw plain ((λ e. ground arith), before_slash-All s)
]

after_slash-IsPathOrNothing : (s : List ℕ) → IsPathOrNothing (after_slash s)
unfolding after_slash
after_slash-IsPathOrNothing [] = tt
after_slash-IsPathOrNothing (c ∷ s) = elim (Bool-cases (nat_eq c b'/')) [
  | inl slash ↦ rw slash (ground arith)
  | inr plain ↦ rw plain (after_slash-IsPathOrNothing s)
]

has_prefix-parts : (p s : List ℕ) → has_prefix s p ≡ true → s ≡ p ++ drop (length p) s
has_prefix-parts [] s h = refl
has_prefix-parts (y ∷ ys) [] h = cc
has_prefix-parts (y ∷ ys) (x ∷ xs) h = ground (arith, has_prefix-parts ys xs)

split-IsTarget :
    (endpoint scheme rest : List ℕ) (insecure : Bool)
    → endpoint ≡ scheme ++ rest
    → IsTransport endpoint scheme insecure
    → IsTarget endpoint (before_slash rest) insecure
split-IsTarget endpoint scheme rest insecure h t = record {
  scheme = scheme;
  path = after_slash rest;
  parts = h ∙ ap (◌++◌ scheme) (sym (before_slash-append rest));
  no_slash = before_slash-All rest;
  path_lem = after_slash-IsPathOrNothing rest;
  transport = t;
}

-- Whatever endpoint is configured, the host is what stands between its scheme and its path, without
-- a slash, and the connection is encrypted exactly where the endpoint begins with `https://`.
pub resolve_endpoint-IsTarget :
    (endpoint : List ℕ)
    → IsTarget endpoint (resolve_endpoint endpoint).0 (resolve_endpoint endpoint).1
unfolding resolve_endpoint split_scheme
resolve_endpoint-IsTarget [] =
    split-IsTarget [] [] [] true refl (inr (inr (refl, refl, refl, refl)))
resolve_endpoint-IsTarget (c ∷ s) = elim (Bool-cases (has_prefix (c ∷ s) https_scheme)) [
  | inl tls ↦ simp tls (
      split-IsTarget (c ∷ s) https_scheme (drop (length https_scheme) (c ∷ s)) false
        (has_prefix-parts https_scheme (c ∷ s) tls) (inl (refl, refl)))
  | inr other ↦ simp other (elim (Bool-cases (has_prefix (c ∷ s) http_scheme)) [
    | inl plain ↦ simp plain (
        split-IsTarget (c ∷ s) http_scheme (drop (length http_scheme) (c ∷ s)) true
          (has_prefix-parts http_scheme (c ∷ s) plain) (inr (inl (refl, refl))))
    | inr bare ↦
        simp bare
          (split-IsTarget (c ∷ s) [] (c ∷ s) true refl (inr (inr (refl, refl, other, bare))))
  ])
]
