-- ===== src/Providers/Tokens.antt =====
-- `OAuthTokenManager` of crates/cloud_sync_lib/src/providers/utils.rs. `post` exchanges a refresh token
-- at the provider: a response and what its body says as JSON. `now` is the clock and `callback` tells
-- the configuration of a new refresh token. Times are numbers
-- of nanoseconds.
pub mod Fresh
pub mod Examples
use cloud_sync_lib.Base.{ℕ, ◌+◌, ◌*◌, ◌-◌, ◌/◌, Bool, Option, none, some, ◌++◌, ltb, if◌then◌else◌}
use cloud_sync_lib.Base.Text.{Text, codes}
use cloud_sync_lib.Storage.Errors.{Foreign, StorageError, Result, ok, err, authentication}
use cloud_sync_lib.Providers.Translate.{Response, is_success, translate_http_error}

-- The fields that are read of the JSON, and the text of all of it.
pub record TokenBody : Type 0 where
  pub access_token : Option Text
  pub refresh_token : Option Text
  pub expires_in : Option ℕ
  pub json : Text

pub record Refreshed : Type 0 where
  pub access_token : Text
  pub new_refresh_token : Option Text
  pub expires_in : Option ℕ

pub record Cached : Type 0 where
  pub token : Text
  pub expiry : ℕ

pub record Manager (W : Type 0) : Type 0 where
  pub refresh_token : Text
  pub cache : Option Cached
  pub world : W

abbrev pub second : ℕ
second = 1000000000

abbrev pub ttl_of : Option ℕ → ℕ
ttl_of none = 3600
ttl_of (some secs) = secs

abbrev pub safety_margin : ℕ → ℕ
safety_margin ttl = if ltb 600 ttl then 300 else ttl / 2

module _ {F : Foreign} {W : Type 0} (provider_name : Text)
    (post : Text → W → Result (StorageError F) (Response × Result (StorageError F) TokenBody) × W)
    (now : W → ℕ) (callback : Text → W → W) where
  abbrev read_token : TokenBody → Option Text → Result (StorageError F) Refreshed
  read_token body none = err (
      authentication
        (codes "Failed to retrieve " ++ provider_name ++ codes " access token: " ++ body.json))
  read_token body (some token) = ok (record {
    access_token = token;
    new_refresh_token = body.refresh_token;
    expires_in = body.expires_in;
  })

  abbrev read_body : Result (StorageError F) TokenBody → Result (StorageError F) Refreshed
  read_body (err e) = err e
  read_body (ok body) = read_token body body.access_token

  abbrev read_response :
      Result (StorageError F) (Response × Result (StorageError F) TokenBody)
      → Result (StorageError F) Refreshed
  read_response (err e) = err e
  read_response (ok (res, body)) =
      if is_success res.status
      then read_body body
      else err (translate_http_error res provider_name (codes "refresh_oauth2_token"))

  unfoldable pub refresh_oauth2_token_details : Text → W → Result (StorageError F) Refreshed × W
  unfolding translate_http_error
  refresh_oauth2_token_details refresh_token w =
      let (r, w') = post refresh_token w in (read_response r, w')

  abbrev pub keep_new : Option Text → Manager W → Manager W
  keep_new none m = m
  keep_new (some new) m = record m { refresh_token = new; world = callback new m.world }

  -- What is kept of a refresh: on an error nothing but the world changes.
  abbrev pub after_refresh :
      Result (StorageError F) Refreshed → Manager W → Result (StorageError F) Text × Manager W
  after_refresh (err e) m = (err e, m)
  after_refresh (ok r) m =
      let m1 = keep_new r.new_refresh_token m in
      let ttl = ttl_of r.expires_in in
      (
        ok r.access_token,
        record m1 {
          cache = some (record {
            token = r.access_token;
            expiry = now m1.world + (ttl - safety_margin ttl) * second;
          });
        },
      )

  abbrev pub refresh : Manager W → Result (StorageError F) Text × Manager W
  refresh m =
      let (r, w) = refresh_oauth2_token_details m.refresh_token m.world in
      after_refresh r (record m { world = w })

  abbrev pub from_cache : Option Cached → Manager W → Result (StorageError F) Text × Manager W
  from_cache none m = refresh m
  from_cache (some c) m =
      if ltb (now m.world + 30 * second) c.expiry then (ok c.token, m) else refresh m

  -- The second look at the cache, behind the lock, sees what the first one saw when nobody else holds
  -- the manager.
  unfoldable pub get_access_token : Manager W → Result (StorageError F) Text × Manager W
  unfolding refresh_oauth2_token_details
  get_access_token m = from_cache m.cache m

  unfoldable pub force_refresh : Manager W → Result (StorageError F) Text × Manager W
  unfolding get_access_token
  force_refresh m = get_access_token (record m { cache = none })
