-- ===== src/Storage/Errors.antt =====
-- `StorageError` of crates/cloud_sync_core/src/traits.rs and its classification. The errors of the
-- standard library and of the HTTP client are parameters.
use cloud_sync_lib.Base.{ℕ, Bool, true, false, ◌||◌, Option, none, some, leb, ◌==◌}
use cloud_sync_lib.Base.Text.{Text}

-- `std::io::Error` and `reqwest::Error`, with what the code asks of the latter.
pub record Foreign : Type 1 where
  pub IoError : Type 0
  pub HttpError : Type 0
  pub is_connect : HttpError → Bool
  pub is_timeout : HttpError → Bool
  pub is_request : HttpError → Bool

-- A `Duration` is a number of nanoseconds, a status a `u16`.
pub data StorageError (F : Foreign) : Type 0 where
  io : F.IoError → StorageError F
  authentication : Text → StorageError F
  not_found : Text → StorageError F
  rate_limit : Text → Option ℕ → StorageError F
  provider : Text → Option ℕ → StorageError F
  reqwest : F.HttpError → StorageError F
  authentication_expired : Text → StorageError F
  conflict : Text → StorageError F
  connection_failed : Text → StorageError F

-- `Result<T, E>`
pub data Result {ℓ} (E : Type ℓ) (A : Type ℓ) : Type ℓ where
  ok : A → Result E A
  err : E → Result E A

unfoldable pub is_transient : {F : Foreign} → StorageError F → Bool
is_transient (rate_limit m d) = true
is_transient (connection_failed m) = true
is_transient (provider m (some status)) = status == 429 || leb 500 status
is_transient {F} (reqwest e) = F.is_connect e || F.is_timeout e || F.is_request e
is_transient _ = false

unfoldable pub is_auth : {F : Foreign} → StorageError F → Bool
is_auth (authentication m) = true
is_auth (authentication_expired m) = true
is_auth _ = false

unfoldable pub is_auth_expired : {F : Foreign} → StorageError F → Bool
unfolding is_auth
is_auth_expired e = is_auth e

unfoldable pub is_not_found : {F : Foreign} → StorageError F → Bool
is_not_found (not_found m) = true
is_not_found _ = false

unfoldable pub is_rate_limited : {F : Foreign} → StorageError F → Bool
is_rate_limited (rate_limit m d) = true
is_rate_limited _ = false

unfoldable pub is_conflict : {F : Foreign} → StorageError F → Bool
is_conflict (conflict m) = true
is_conflict _ = false

unfoldable pub retry_after : {F : Foreign} → StorageError F → Option ℕ
retry_after (rate_limit m d) = d
retry_after _ = none
