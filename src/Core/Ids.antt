-- ===== src/Core/Ids.antt =====
-- The validated identifiers of crates/nubisync-core/src/lib.rs: `ProviderId`, `ProviderAccount`,
-- `ChangeCursor` and `ContinuationToken`. Each is a text in a wrapper that only `new` fills.
pub mod Shape
use nubisync.Base.{
  ℕ, Bool, ◌||◌, not, List, Option, Text, is_empty, is_blank, byte_len, all, ltb, leb, ◌==◌, nat_eq,
  Result, ok, err, if◌then◌else◌, ◌&&◌,
}
use nubisync.Core.Error.{
  CoreError, invalid_provider_id, invalid_account_subject, invalid_cursor,
  invalid_continuation_token,
}

pub record ProviderId : Type 0 where
  pub as_str : Text

-- The test on the bytes. A character beyond ASCII has only bytes from 0x80 up, which fail it, so
-- that testing the characters accepts the same texts.
unfoldable pub is_provider_id_char : ℕ → Bool
is_provider_id_char c =
    (leb b'a' c && leb c b'z') || (leb b'0' c && leb c b'9') || c == b'-' || c == b'_'

unfoldable pub new_provider_id : Text → Result CoreError ProviderId
unfolding is_provider_id_char byte_len
new_provider_id value =
    if is_empty value || ltb 64 (byte_len value)
    then err invalid_provider_id
    else if not (all is_provider_id_char value)
    then err invalid_provider_id
    else ok (record { as_str = value })

pub record ProviderAccount : Type 0 where
  pub provider : ProviderId
  pub subject : Text
  pub email : Option Text
  pub display_name : Option Text

unfoldable pub new_provider_account :
    ProviderId → Text → Option Text → Option Text → Result CoreError ProviderAccount
unfolding is_blank
new_provider_account provider subject email display_name =
    if is_blank subject
    then err invalid_account_subject
    else ok (record {
      provider = provider;
      subject = subject;
      email = email;
      display_name = display_name;
    })

pub record ChangeCursor : Type 0 where
  pub as_str : Text

unfoldable pub new_change_cursor : Text → Result CoreError ChangeCursor
new_change_cursor value =
    if is_empty value then err invalid_cursor else ok (record { as_str = value })

pub record ContinuationToken : Type 0 where
  pub as_str : Text

unfoldable pub new_continuation_token : Text → Result CoreError ContinuationToken
new_continuation_token value =
    if is_empty value then err invalid_continuation_token else ok (record { as_str = value })
