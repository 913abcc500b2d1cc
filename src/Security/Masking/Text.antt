-- ===== src/Security/Masking/Text.antt =====
-- How the masker hides a text.
use obs_brutal.Prelude.{
  ℕ, zero, suc, ◌+◌, ◌-◌, ◌/◌, ◌%◌, Bool, ◌||◌, List, [], ◌∷◌, ◌++◌, ltb, leb, nat_eq,
  if◌then◌else◌, length, take, drop, replicate, codes,
}
use obs_brutal.Domain.Value.{Value, text}

pub data MaskingAction : Type 0 where
  mask_partial mask_full mask_hash mask_remove mask_encrypt : MaskingAction

abbrev pub stars : ℕ → List ℕ
stars n = replicate n b'*'

-- `string(b)` for a byte: the UTF-8 form of the code point of that number.
abbrev pub rune_string : ℕ → List ℕ
rune_string b = if ltb b 128 then b ∷ [] else (192 + b / 64) ∷ (128 + b % 64) ∷ []

abbrev pub byte_at : List ℕ → ℕ → ℕ
byte_at [] i = 0
byte_at (c ∷ s) zero = c
byte_at (c ∷ s) (suc i) = byte_at s i

-- `maskPartially`.
unfoldable pub mask_partially : List ℕ → List ℕ
mask_partially s =
    let n = length s in
    if leb n 2
    then stars n
    else if leb n 6
    then rune_string (byte_at s 0) ++ (stars (n - 2) ++ rune_string (byte_at s (n - 1)))
    else take 2 s ++ (stars (n - 4) ++ drop (n - 2) s)

-- `hex.EncodeToString`.
abbrev pub hex_digit : ℕ → ℕ
hex_digit d = if ltb d 10 then b'0' + d else b'a' + (d - 10)

unfoldable pub hex_encode : List ℕ → List ℕ
hex_encode [] = []
hex_encode (b ∷ bs) = hex_digit (b / 16) ∷ hex_digit (b % 16) ∷ hex_encode bs

-- The parameter is the digest: `sha256.Sum256`, which gives 32 bytes.
module _ (sum256 : List ℕ → List ℕ) where
  unfoldable pub hash_value : List ℕ → List ℕ
  unfolding hex_encode
  hash_value s = codes "[HASH:" ++ (hex_encode (take 8 (sum256 s)) ++ codes "]")

  -- `encryptValue`: the slice [7:15] of the hash.
  unfoldable pub encrypt_value : List ℕ → List ℕ
  unfolding hash_value
  encrypt_value s = codes "[ENCRYPTED:" ++ (take 8 (drop 7 (hash_value s)) ++ codes "]")

  unfoldable pub mask_text_by : MaskingAction → List ℕ → List ℕ
  unfolding mask_partially hash_value encrypt_value
  mask_text_by mask_partial s = mask_partially s
  mask_text_by mask_full s = stars (length s)
  mask_text_by mask_hash s = hash_value s
  mask_text_by mask_remove s = codes "[REMOVED]"
  mask_text_by mask_encrypt s = encrypt_value s

  -- `applyMaskingAction`: a value that is no string is left as it is.
  unfoldable pub apply_masking_action : MaskingAction → Value → Value
  unfolding mask_text_by
  apply_masking_action a (text s) = text (mask_text_by a s)
  apply_masking_action a v = v

-- The loop of `applyCustomMask`: the pattern is gone through again and again.
abbrev pub is_keep : ℕ → Bool
is_keep c = nat_eq c b'x' || nat_eq c b'X'

unfoldable pub custom_from : List ℕ → ℕ → List ℕ → List ℕ
custom_from pat i [] = []
custom_from pat i (ch ∷ s) =
    let c = byte_at pat (i % length pat) in
    (if is_keep c then ch else c) ∷ custom_from pat (i + 1) s

unfoldable pub custom_text : List ℕ → List ℕ → List ℕ
unfolding mask_partially custom_from
custom_text [] s = mask_partially s
custom_text (p ∷ pat) s = custom_from (p ∷ pat) 0 s

-- `applyCustomMask`.
unfoldable pub apply_custom_mask : List ℕ → Value → Value
unfolding custom_text
apply_custom_mask pat (text s) = text (custom_text pat s)
apply_custom_mask pat v = v
