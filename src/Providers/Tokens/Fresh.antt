-- ===== src/Providers/Tokens/Fresh.antt =====
-- How long the tokens are good that `OAuthTokenManager` of
-- crates/cloud_sync_lib/src/providers/utils.rs hands out.
use cloud_sync_lib.Base.{
  ℕ, ◌+◌, ◌*◌, ◌-◌, ◌≤◌, ◌≡◌, refl, Bool, true, false, Option, none, some, inl, inr, ltb,
  if◌then◌else◌, arith, Bool-cases,
}
use cloud_sync_lib.Base.Text.{Text}
use cloud_sync_lib.Storage.Errors.{Foreign, StorageError, Result, ok, err}
use cloud_sync_lib.Providers.Translate.{Response}
use cloud_sync_lib.Providers.Tokens.{
  TokenBody, Refreshed, Cached, Manager, second, ttl_of, safety_margin, keep_new, after_refresh,
  refresh, from_cache, refresh_oauth2_token_details, get_access_token, force_refresh,
}

module _ {F : Foreign} {W : Type 0} (provider_name : Text)
    (post : Text → W → Result (StorageError F) (Response × Result (StorageError F) TokenBody) × W)
    (now : W → ℕ) (callback : Text → W → W) (end_of : Text → ℕ) where
  -- The seconds that a grant lasts: an hour, unless the provider says how long.
  abbrev pub lifetime : Option ℕ → ℕ
  lifetime none = 3600
  lifetime (some expires_in) = expires_in

  -- A grant lasts for at least a minute. The token is issued some time between the request and the
  -- answer, so it is good for its lifetime from the request on, and the answer takes at most half a
  -- minute. Telling the configuration of a new refresh token takes no time.
  pub record IsGranting : Type 0 where
    pub lasts :
        (token : Text) (w w' : W) (r : Refreshed)
        → refresh_oauth2_token_details provider_name post now callback token w ≡ (ok r, w')
        → 60 ≤ lifetime r.expires_in
    pub swift :
        (token : Text) (w w' : W) (r : Refreshed)
        → refresh_oauth2_token_details provider_name post now callback token w ≡ (ok r, w')
        → now w' ≤ now w + 30 * 1000000000
    pub grants :
        (token : Text) (w w' : W) (r : Refreshed)
        → refresh_oauth2_token_details provider_name post now callback token w ≡ (ok r, w')
        → now w + lifetime r.expires_in * 1000000000 ≤ end_of r.access_token
    pub instant : (token : Text) (w : W) → now (callback token w) ≡ now w

  -- The cached token outlives its entry.
  abbrev pub IsLive : Option Cached → Type 0
  IsLive none = Unit
  IsLive (some c) = c.expiry ≤ end_of c.token

  -- A token that is good for half a minute more.
  abbrev pub IsGood : Result (StorageError F) Text → W → Type 0
  IsGood (ok token) w = now w + 30 * 1000000000 ≤ end_of token
  IsGood (err e) w = Unit

  ttl_of-lifetime : (o : Option ℕ) → ttl_of o ≡ lifetime o
  ttl_of-lifetime none = refl
  ttl_of-lifetime (some n) = refl

  -- The margin covers the time of the answer.
  margin_le :
      (ttl : ℕ) → 60 ≤ ttl → (ttl - safety_margin ttl) * second + 30 * 1000000000 ≤ ttl * 1000000000
  margin_le ttl h = ground arith

  module _ (granting : IsGranting) where
    now-keep_new :
        (new : Option Text) (m : Manager W)
        → now (keep_new provider_name post now callback new m).world ≡ now m.world
    now-keep_new none m = refl
    now-keep_new (some token) m = granting.instant token m.world

    after_refresh-IsLive :
        (r : Result (StorageError F) Refreshed) (token : Text) (w : W) (m : Manager W)
        → IsLive m.cache
        → refresh_oauth2_token_details provider_name post now callback token w ≡ (r, m.world)
        → (let (x, m') = after_refresh provider_name post now callback r m in
            IsGood x m'.world × IsLive m'.cache)
    after_refresh-IsLive (err e) token w m live given = (tt, live)
    after_refresh-IsLive (ok r) token w m live given =
        let lasts = granting.lasts token w m.world r given in
        let swift = granting.swift token w m.world r given in
        let granted = granting.grants token w m.world r given in
        let same = now-keep_new r.new_refresh_token m in
        let margin = margin_le (lifetime r.expires_in) lasts in
        (
          omega (arith, lasts, swift, granted, same),
          rw ttl_of-lifetime (omega (arith, swift, granted, same, margin)),
        )

    refresh-IsLive :
        (m : Manager W)
        → IsLive m.cache
        → (let (x, m') = refresh provider_name post now callback m in
            IsGood x m'.world × IsLive m'.cache)
    refresh-IsLive m live =
        let asked =
          refresh_oauth2_token_details provider_name post now callback m.refresh_token m.world in
        after_refresh-IsLive asked.0 m.refresh_token m.world (record m { world = asked.1 }) live
          refl

    from_cache-IsLive :
        (c : Option Cached) (m : Manager W)
        → IsLive c
        → IsLive m.cache
        → (let (x, m') = from_cache provider_name post now callback c m in
            IsGood x m'.world × IsLive m'.cache)
    from_cache-IsLive none m good live = refresh-IsLive m live
    from_cache-IsLive (some c) m good live =
        elim (Bool-cases (ltb (now m.world + 30 * second) c.expiry)) [
          | inl yes' ↦ rw yes' (ground (arith, good), live)
          | inr no' ↦ rw no' (refresh-IsLive m live)
        ]

  -- Let a grant last for at least a minute, counted from the request, an answer take at most half a
  -- minute, a grant without a lifetime last an hour, and telling the configuration of a new refresh
  -- token take no time. While the cached token outlives its entry, as it does without an entry, a
  -- token that the manager hands out, from the cache or from a refresh, asked for or forced, is good
  -- for half a minute more, and the cached token outlives its entry again.
  pub tokens_in_time :
      (m : Manager W) (forced : Bool)
      → IsGranting
      → IsLive m.cache
      → (let (x, m') =
            if forced
            then force_refresh provider_name post now callback m
            else get_access_token provider_name post now callback m in
          IsGood x m'.world × IsLive m'.cache)
  unfolding get_access_token force_refresh
  tokens_in_time m true granting live = refresh-IsLive granting (record m { cache = none }) tt
  tokens_in_time m false granting live = from_cache-IsLive granting m.cache m live live
