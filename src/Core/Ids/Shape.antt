-- ===== src/Core/Ids/Shape.antt =====
-- Which texts are provider ids.
use nubisync.Base.{
  ℕ, ◌≤◌, ◌<◌, ◌≡◌, refl, ◌↔◌, true, [], ◌∷◌, arith, Text, byte_len, all, All, length, nat_eq, ok,
  ◌⊎◌,
}
use nubisync.Core.Ids.{ProviderId, is_provider_id_char, new_provider_id}

-- a-z, 0-9, `-` and `_`
abbrev pub IsIdChar : ℕ → Type 0
IsIdChar c = (((b'a' ≤ c) × (c ≤ b'z')) ⊎ ((b'0' ≤ c) × (c ≤ b'9'))) ⊎ ((c ≡ b'-') ⊎ (c ≡ b'_'))

is_provider_id_char_iff : (c : ℕ) → (is_provider_id_char c ≡ true) ↔ IsIdChar c
unfolding is_provider_id_char
is_provider_id_char_iff c = (λ h. ground arith, λ h. ground arith)

all-All : (s : Text) → (all is_provider_id_char s ≡ true) ↔ All IsIdChar s
all-All [] = (λ _. tt, λ _. refl)
all-All (c ∷ s) =
    let (sound, complete) = is_provider_id_char_iff c in
    let (rest, back) = all-All s in
    (λ h. (sound (ground arith), rest (ground arith)), λ h. ground (arith, complete h.0, back h.1))

byte_len_of_ids : (s : Text) → All IsIdChar s → byte_len s ≡ length s
unfolding byte_len
byte_len_of_ids [] h = refl
byte_len_of_ids (c ∷ s) (here, rest) = ground (arith, byte_len_of_ids s rest)

-- A text is accepted as a provider id, unchanged, exactly when it has 1 to 64 characters, each
-- a lower-case letter, a digit, a dash or an underscore.
new_provider_id_iff :
    (value : Text) (id : ProviderId)
    → (new_provider_id value ≡ ok id)
      ↔ ((id.as_str ≡ value) × (0 < length value) × (length value ≤ 64) × All IsIdChar value)
unfolding new_provider_id
new_provider_id_iff [] id = (λ h. cc, λ h. absurd (omega arith))
new_provider_id_iff (c ∷ s) id =
    let (sound, complete) = all-All (c ∷ s) in
    let narrow = byte_len_of_ids (c ∷ s) in
    (λ h. ground (arith, sound, narrow), λ h. ground (arith, complete h.3, narrow h.3))
