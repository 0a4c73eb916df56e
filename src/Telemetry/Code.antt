-- ===== src/Telemetry/Code.antt =====
-- `DiagnosticCode::new` of crates/nubisync-telemetry/src/lib.rs and what it lets through.
use nubisync.Base.{
  Text, [], all, arith, byte_len, length, ok, refl, true, utf8_width, ◌↔◌, ◌∷◌, ◌≡◌, ◌≤◌,
}
use nubisync.Telemetry.{DiagnosticCode, is_code_char, new_diagnostic_code}

-- A code is of ASCII characters, so its bytes are as many as its characters.
byte_len_code : (s : Text) → all is_code_char s ≡ true → byte_len s ≡ length s
unfolding byte_len utf8_width
byte_len_code [] h = refl
byte_len_code (c ∷ s) h = ground (arith, byte_len_code s (ground arith))

-- A text is a diagnostic code exactly when it has 1 to 64 characters, all of them capital ASCII
-- letters, digits or underscores.
new_diagnostic_code_iff :
    (value : Text) (code : DiagnosticCode)
    → (new_diagnostic_code value ≡ ok code) ↔ (
        (code.as_str ≡ value)
        × (1 ≤ length value)
        × (length value ≤ 64)
        × (all is_code_char value ≡ true))
unfolding new_diagnostic_code
new_diagnostic_code_iff [] code = (λ h. cc, λ h. absurd (omega arith))
new_diagnostic_code_iff (c ∷ s) code =
    let narrow = byte_len_code (c ∷ s) in (λ h. ground (arith, narrow), λ h. ground (arith, narrow))
