-- ===== src/Security/Masking/Secrecy.antt =====
-- What a masked text still shows.
use obs_brutal.Prelude.{
  ℕ, zero, suc, ◌+◌, ◌-◌, ◌*◌, ◌≤◌, String, ◌≡◌, refl, sym, ap, ◌∙◌, ◌⊎◌, inl, inr, ◌&&◌, List, [],
  ◌∷◌, ◌++◌, zero-add, suc-add, arith, ltb, leb, if◌then◌else◌, Bool-cases, length, take, drop,
  length-append, length-drop, length-take, length-replicate, lookup, insert, codes,
}
use obs_brutal.Domain.Value.{text}
use obs_brutal.Security.Masking.Text.{
  mask_full, stars, rune_string, byte_at, mask_partially, apply_masking_action, hex_encode,
  hash_value, encrypt_value,
}
use obs_brutal.Security.Masking.Fields.{MaskingPattern, new_pii_masker, mask_value, lower_key}

byte_at-take : (s t : List ℕ) → take 2 s ≡ take 2 t → byte_at s 0 ≡ byte_at t 0
byte_at-take [] [] h = refl
byte_at-take [] (c ∷ []) h = cc
byte_at-take [] (c ∷ d ∷ t) h = cc
byte_at-take (a ∷ []) [] h = cc
byte_at-take (a ∷ b ∷ s) [] h = cc
byte_at-take (a ∷ []) (c ∷ []) h = cc
byte_at-take (a ∷ []) (c ∷ d ∷ t) h = cc
byte_at-take (a ∷ b ∷ s) (c ∷ []) h = cc
byte_at-take (a ∷ b ∷ s) (c ∷ d ∷ t) h = cc

byte_at-drop : (n i : ℕ) (s : List ℕ) → byte_at (drop n s) i ≡ byte_at s (n + i)
byte_at-drop zero i s = rw zero-add
byte_at-drop (suc n) i [] = refl
byte_at-drop (suc n) i (c ∷ s) = byte_at-drop n i s ∙ rw suc-add

last_byte :
    (s t : List ℕ)
    → 2 ≤ length s
    → length s ≡ length t
    → drop (length s - 2) s ≡ drop (length s - 2) t
    → byte_at s (length s - 1) ≡ byte_at t (length t - 1)
last_byte s t h n e =
    let k : length s - 2 + 1 ≡ length s - 1 = omega arith in
    rw (← n, ← k)
      (sym (byte_at-drop (length s - 2) 1 s)
        ∙ ap (λ l. byte_at l 1) e
        ∙ byte_at-drop (length s - 2) 1 t)

-- Partial masking hides the inside of a text: two texts of one length that agree on their first
-- two and on their last two bytes are masked alike.
pub mask_partially-hides :
    (s t : List ℕ)
    → length s ≡ length t
    → take 2 s ≡ take 2 t
    → drop (length s - 2) s ≡ drop (length s - 2) t
    → mask_partially s ≡ mask_partially t
unfolding mask_partially
mask_partially-hides s t n a z = elim (Bool-cases (leb (length s) 2)) [
  | inl short ↦ rw (← n, short)
  | inr more ↦ elim (Bool-cases (leb (length s) 6)) [
    | inl middle ↦
        let first = byte_at-take s t a in
        let last = last_byte s t (ground arith) n z in
        rw (← n, more, middle) (rw first (rw last (rw (← n))))
    | inr long_ ↦ rw (← n, more, long_) (rw (a, z))
  ]
]

-- Masking in full shows the length of a text and nothing else.
pub mask_full-hides :
    (sum256 : List ℕ → List ℕ) (s t : List ℕ)
    → length s ≡ length t
    → apply_masking_action sum256 mask_full (text s)
      ≡ apply_masking_action sum256 mask_full (text t)
unfolding apply_masking_action
mask_full-hides sum256 s t n = ap (λ k. text (stars k)) n

-- How many bytes more a byte takes as a code point.
abbrev pub widened : ℕ → ℕ
widened b = if ltb b 128 then 0 else 1

length-rune_string : (b : ℕ) → length (rune_string b) ≡ 1 + widened b
length-rune_string b = ground arith

-- The masked text is as long as the text, but for a text of three to six bytes: there a first or a
-- last byte that is not ASCII is written in two bytes.
pub length-mask_partially :
    (s : List ℕ)
    → length (mask_partially s) ≡ (
        if leb 3 (length s) && leb (length s) 6
        then length s + widened (byte_at s 0) + widened (byte_at s (length s - 1))
        else length s)
unfolding mask_partially
length-mask_partially s = ground (
  arith,
  length-replicate {A = ℕ} (length s) b'*',
  length-replicate {A = ℕ} (length s - 2) b'*',
  length-replicate {A = ℕ} (length s - 4) b'*',
  length-append (rune_string (byte_at s 0))
      (stars (length s - 2) ++ rune_string (byte_at s (length s - 1))),
  length-append (stars (length s - 2)) (rune_string (byte_at s (length s - 1))),
  length-rune_string (byte_at s 0),
  length-rune_string (byte_at s (length s - 1)),
  length-append (take 2 s) (stars (length s - 4) ++ drop (length s - 2) s),
  length-append (stars (length s - 4)) (drop (length s - 2) s),
  length-take 2 s,
  length-drop (length s - 2) s,
)

length-hex_encode : (bs : List ℕ) → length (hex_encode bs) ≡ 2 * length bs
unfolding hex_encode
length-hex_encode [] = omega arith
length-hex_encode (b ∷ bs) = omega (arith, length-hex_encode bs)

-- With a digest of 32 bytes the hash has 23 bytes, so the slice [7:15] that encryption takes lies
-- inside it, and every encrypted value has 20 bytes.
pub hash_value-length :
    (sum256 : List ℕ → List ℕ) (s : List ℕ)
    → length (sum256 s) ≡ 32
    → (length (hash_value sum256 s) ≡ 23) × (length (encrypt_value sum256 s) ≡ 20)
unfolding hash_value encrypt_value
hash_value-length sum256 s d =
    let h : length (hash_value sum256 s) ≡ 23 = omega (
      arith,
      length-append (hex_encode (take 8 (sum256 s))) (codes "]"),
      length-hex_encode (take 8 (sum256 s)),
      length-take 8 (sum256 s),
    ) in
    (
      h,
      omega (
        arith,
        h,
        length-append (take 8 (drop 7 (hash_value sum256 s))) (codes "]"),
        length-take 8 (drop 7 (hash_value sum256 s)),
        length-drop 7 (hash_value sum256 s),
      ),
    )

-- The keys with a rule by default, in lower case.
abbrev pub ruled_keys : List (List ℕ)
ruled_keys =
    codes "password"
    ∷ codes "secret"
    ∷ codes "private_key"
    ∷ codes "access_token"
    ∷ codes "refresh_token"
    ∷ []

-- A default masker with any patterns shows nothing of a password or secret but its length, and
-- nothing at all of a private key, in whatever case the key is written.
pub mask_value-hides :
    (sum256 : List ℕ → List ℕ) (patterns : List MaskingPattern) (k : String) (s t : List ℕ)
    → (lower_key k ≡ codes "password")
      ⊎ (lower_key k ≡ codes "secret")
      ⊎ (lower_key k ≡ codes "private_key")
    → length s ≡ length t
    → let pm = new_pii_masker patterns in
      mask_value sum256 pm k (text s) ≡ mask_value sum256 pm k (text t)
unfolding mask_value new_pii_masker lookup insert
mask_value-hides sum256 patterns k s t (inl h) n = rw h (mask_full-hides sum256 s t n)
mask_value-hides sum256 patterns k s t (inr (inl h)) n = rw h (mask_full-hides sum256 s t n)
mask_value-hides sum256 patterns k s t (inr (inr h)) n = rw h (unfold apply_masking_action in refl)
