-- ===== src/Providers/Translate.antt =====
-- How crates/cloud_sync_lib/src/providers/utils.rs makes an error of an HTTP response. Texts that are
-- only shown are built from the same parts; `trim` takes off ASCII white space.
pub mod Classes
pub mod Examples
use mathlib.Core.Option
use cloud_sync_lib.Base.{
  ℕ, ◌*◌, ◌<◌, Bool, true, false, ◌||◌, ◌&&◌, not, Option, none, some, List, [], ◌∷◌, ◌++◌, ◌==◌,
  leb, if◌then◌else◌, or_else,
}
use cloud_sync_lib.Base.Lists.{is_empty, all}
use cloud_sync_lib.Base.Text.{Text, codes, text_eq, contains}
use cloud_sync_lib.Storage.Errors
use cloud_sync_lib.Storage.Errors.{Foreign, StorageError}

-- What the code reads of a response: the status, the parsed `Retry-After` header in seconds, the
-- decimal and the full form of the status, and the body.
pub record Response : Type 0 where
  pub status : ℕ
  pub retry_after : Option ℕ
  pub status_digits : Text
  pub status_text : Text
  pub body : Text

abbrev pub is_success : ℕ → Bool
is_success status = leb 200 status && leb status 299

abbrev is_space : ℕ → Bool
is_space b = b == 32 || (leb 9 b && leb b 13)

-- `text.trim().is_empty()`
abbrev pub is_blank : Text → Bool
is_blank = all is_space

abbrev pub message_of : Text → Option Text → Text
message_of digits none = codes "HTTP status " ++ digits
message_of digits (some d) = if is_blank d then codes "HTTP status " ++ digits else d

-- The provider answers that the credentials themselves are wrong.
unfoldable pub is_refused : Text → Text → Bool
unfolding text_eq contains
is_refused action msg =
    text_eq action (codes "refresh_oauth2_token")
    || text_eq action (codes "authenticate")
    || contains msg (codes "invalid_grant")
    || contains msg (codes "invalid_client")
    || contains msg (codes "unauthorized_client")
    || contains msg (codes "invalid_token")

abbrev pub on : Text → Text → Text → Text
on what provider_name msg = what ++ provider_name ++ codes ": " ++ msg

module _ {F : Foreign} where
  -- The `match` on the status.
  abbrev pub by_status : ℕ → Text → Text → Text → StorageError F
  by_status status provider_name action msg =
      if status == 429
      then Errors.rate_limit (on (codes "Rate limit exceeded on ") provider_name msg) none
      else if status == 404
      then Errors.not_found (on (codes "Resource not found on ") provider_name msg)
      else if status == 401 || status == 403
      then Errors.authentication_expired
          (on (codes "Authentication expired or forbidden on ") provider_name msg)
      else if status == 409
      then Errors.conflict (on (codes "Conflict on ") provider_name msg)
      else Errors.provider (codes "Failed to " ++ action ++ on (codes " on ") provider_name msg)
          (some status)

  unfoldable pub translate_status_code_error : ℕ → Text → Text → Text → Option Text → StorageError F
  unfolding is_refused
  translate_status_code_error status digits provider_name action detail =
      if is_refused action (message_of digits detail)
      then Errors.authentication
          (on (codes "Failed to authenticate on ") provider_name (message_of digits detail))
      else by_status status provider_name action (message_of digits detail)

  -- Seconds become a Duration of nanoseconds.
  abbrev pub with_retry_after : Option ℕ → StorageError F → StorageError F
  with_retry_after after (Errors.rate_limit m none) =
      Errors.rate_limit m (Option.map (λ s. s * 1000000000) after)
  with_retry_after after (Errors.rate_limit m (some d)) = Errors.rate_limit m (some d)
  with_retry_after after (Errors.io e) = Errors.io e
  with_retry_after after (Errors.authentication m) = Errors.authentication m
  with_retry_after after (Errors.not_found m) = Errors.not_found m
  with_retry_after after (Errors.provider m s) = Errors.provider m s
  with_retry_after after (Errors.reqwest e) = Errors.reqwest e
  with_retry_after after (Errors.authentication_expired m) = Errors.authentication_expired m
  with_retry_after after (Errors.conflict m) = Errors.conflict m
  with_retry_after after (Errors.connection_failed m) = Errors.connection_failed m

  unfoldable pub translate_http_error : Response → Text → Text → StorageError F
  unfolding translate_status_code_error
  translate_http_error res provider_name action = with_retry_after res.retry_after (
      translate_status_code_error res.status res.status_digits provider_name action
        (some (if is_blank res.body then res.status_text else res.body)))
