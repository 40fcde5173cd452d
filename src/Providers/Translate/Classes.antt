-- ===== src/Providers/Translate/Classes.antt =====
-- The classes of the errors that crates/cloud_sync_lib/src/providers/utils.rs makes of responses: what
-- the layers and the fallback ask of them.
use mathlib.Core.Option
use cloud_sync_lib.Storage.Errors
use cloud_sync_lib.Base.{
  sym, [], ◌∷◌, true, false, ◌++◌, ℕ, ◌*◌, ◌≡◌, refl, Bool, ◌||◌, ◌&&◌, not, Option, none, some,
  arith, ◌==◌, leb, if◌then◌else◌,
}
use cloud_sync_lib.Base.Lists.{any}
use cloud_sync_lib.Base.Text.{codes, Text, text_eq, contains}
use cloud_sync_lib.Storage.Errors.{
  Foreign, StorageError, is_auth, is_not_found, is_rate_limited, is_conflict, is_transient,
  retry_after,
}
use cloud_sync_lib.Providers.Translate.{
  Response, is_refused, is_blank, message_of, by_status, with_retry_after,
  translate_status_code_error, translate_http_error,
}

-- The five questions that are asked of an error, and the wait that it carries.
pub record IsClassed {F : Foreign} (e : StorageError F)
    (auth missing limited conflicting transient : Bool) (wait : Option ℕ) : Type 0 where
  pub auth_class : is_auth e ≡ auth
  pub missing_class : is_not_found e ≡ missing
  pub limited_class : is_rate_limited e ≡ limited
  pub conflict_class : is_conflict e ≡ conflicting
  pub transient_class : is_transient e ≡ transient
  pub waits : retry_after e ≡ wait

-- The action is one that sends credentials, or the message has one of the OAuth error codes for
-- credentials that are wrong.
abbrev pub says_refused : Text → Text → Bool
says_refused action msg =
    any (text_eq action) (codes "refresh_oauth2_token" ∷ codes "authenticate" ∷ [])
    || any (contains msg) (
        codes "invalid_grant"
        ∷ codes "invalid_client"
        ∷ codes "unauthorized_client"
        ∷ codes "invalid_token"
        ∷ [])

is_refused-says_refused : (action msg : Text) → is_refused action msg ≡ says_refused action msg
unfolding is_refused
is_refused-says_refused action msg = ground arith

-- The message that decides whether the credentials were refused.
abbrev pub detail_of : Response → Text
detail_of res =
    message_of res.status_digits (some (if is_blank res.body then res.status_text else res.body))

module _ {F : Foreign} where
  by_status-IsClassed :
      (status : ℕ) (provider_name action msg : Text) (after : Option ℕ)
      → IsClassed
          (with_retry_after after (by_status {F = F} status provider_name action msg))
          (status == 401 || status == 403)
          (status == 404)
          (status == 429)
          (status == 409)
          (status == 429 || leb 500 status)
          (if status == 429 then Option.map (λ s. s * 1000000000) after else none)
  unfolding is_auth is_not_found is_rate_limited is_conflict is_transient retry_after
  by_status-IsClassed status provider_name action msg after = record {
    auth_class = ground arith;
    missing_class = ground arith;
    limited_class = ground arith;
    conflict_class = ground arith;
    transient_class = ground arith;
    waits = ground arith;
  }

  refused-IsClassed :
      (b : Bool) (status : ℕ) (provider_name action msg refusal : Text) (after : Option ℕ)
      → IsClassed
          (with_retry_after after (
            if b
            then Errors.authentication refusal
            else by_status {F = F} status provider_name action msg))
          (b || status == 401 || status == 403)
          (not b && status == 404)
          (not b && status == 429)
          (not b && status == 409)
          (not b && (status == 429 || leb 500 status))
          (if not b && status == 429 then Option.map (λ s. s * 1000000000) after else none)
  unfolding is_auth is_not_found is_rate_limited is_conflict is_transient retry_after
  refused-IsClassed true status provider_name action msg refusal after = record {
    auth_class = refl;
    missing_class = refl;
    limited_class = refl;
    conflict_class = refl;
    transient_class = refl;
    waits = refl;
  }
  refused-IsClassed false status provider_name action msg refusal after =
      by_status-IsClassed status provider_name action msg after

  -- What the five classifiers say of the error made of a response. It is an authentication error
  -- when the action refreshes a token or authenticates, or the message has one of four OAuth error
  -- codes, whatever the status, and for 401 and 403. Otherwise 404 is a missing resource, 429 a rate
  -- limit and 409 a conflict, exactly 429 and the statuses from 500 on are transient, and only 429
  -- carries the wait of the header, in nanoseconds.
  pub translate_http_error-IsClassed :
      (res : Response) (provider_name action : Text)
      → IsClassed
          (translate_http_error {F = F} res provider_name action)
          (says_refused action (detail_of res) || res.status == 401 || res.status == 403)
          (not (says_refused action (detail_of res)) && res.status == 404)
          (not (says_refused action (detail_of res)) && res.status == 429)
          (not (says_refused action (detail_of res)) && res.status == 409)
          (not (says_refused action (detail_of res)) && (res.status == 429 || leb 500 res.status))
          (if not (says_refused action (detail_of res)) && res.status == 429
            then Option.map (λ s. s * 1000000000) res.retry_after
            else none)
  unfolding translate_http_error translate_status_code_error is_auth is_not_found is_rate_limited
      is_conflict is_transient retry_after
  translate_http_error-IsClassed res provider_name action =
      rw (sym (is_refused-says_refused action (detail_of res))) (
        refused-IsClassed (is_refused action (detail_of res)) res.status provider_name action
          (detail_of res)
          (codes "Failed to authenticate on " ++ provider_name ++ codes ": " ++ detail_of res)
          res.retry_after)
