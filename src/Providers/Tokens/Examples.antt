-- ===== src/Providers/Tokens/Examples.antt =====
-- A provider that grants an hour from the time it is asked; the token is that time.
use mathlib.Core.Path.{subst}
use cloud_sync_lib.Base.{ℕ, ◌+◌, ◌*◌, ◌≤◌, ◌≡◌, refl, false, none, some, [], ◌∷◌, arith}
use cloud_sync_lib.Base.Text.{Text, codes}
use cloud_sync_lib.Storage.Errors.{StorageError, Result, ok, err}
use cloud_sync_lib.Providers.Samples.{foreign}
use cloud_sync_lib.Providers.Translate.{Response}
use cloud_sync_lib.Providers.Tokens.{
  TokenBody, Refreshed, Manager, second, get_access_token, refresh_oauth2_token_details,
}
use cloud_sync_lib.Providers.Tokens.Fresh.{lifetime, IsGranting, IsGood, IsLive, tokens_in_time}

abbrev granted : Response
granted = record {
  status = 200;
  retry_after = none;
  status_digits = codes "200";
  status_text = codes "200 OK";
  body = [];
}

abbrev hour : ℕ → TokenBody
hour w = record { access_token = some (w ∷ []); refresh_token = none; expires_in = none; json = [] }

abbrev post :
    Text
    → ℕ
    → Result (StorageError foreign) (Response × Result (StorageError foreign) TokenBody) × ℕ
post token w = (ok (granted, ok (hour w)), w)

abbrev now : ℕ → ℕ
now w = w

abbrev keep : Text → ℕ → ℕ
keep token w = w

abbrev end_of : Text → ℕ
end_of [] = 0
end_of (t ∷ s) = t + 3600 * second

abbrev IsGranted : ℕ → Result (StorageError foreign) Refreshed × ℕ → Type 0
IsGranted w (ok r, w') =
    let n = lifetime (codes "Box") post now keep end_of r.expires_in in
    (60 ≤ n) × (w' ≤ w + 30 * 1000000000) × (w + n * 1000000000 ≤ end_of r.access_token)
IsGranted w (err e, w') = Unit

post-IsGranted :
    (token : Text) (w w' : ℕ) (r : Refreshed)
    → refresh_oauth2_token_details (codes "Box") post now keep token w ≡ (ok r, w')
    → IsGranted w (ok r, w')
unfolding refresh_oauth2_token_details
post-IsGranted token w w' r e = subst (IsGranted w) e (omega arith, omega arith, omega arith)

post-IsGranting : IsGranting (codes "Box") post now keep end_of
post-IsGranting = record {
  lasts = λ token w w' r e. (post-IsGranted token w w' r e).0;
  swift = λ token w w' r e. (post-IsGranted token w w' r e).1;
  grants = λ token w w' r e. (post-IsGranted token w w' r e).2;
  instant = λ token w. refl;
}

-- A token of the time 5, which the cache keeps for 55 minutes.
abbrev manager : Manager ℕ
manager = record {
  refresh_token = codes "r";
  cache = some (record { token = 5 ∷ []; expiry = 5 + 3300 * second });
  world = 100 * second;
}

tokens_in_time_example :
    (let (x, m') = get_access_token (codes "Box") post now keep manager in
      IsGood (codes "Box") post now keep end_of x m'.world
      × IsLive (codes "Box") post now keep end_of m'.cache)
tokens_in_time_example =
    tokens_in_time (codes "Box") post now keep end_of manager false post-IsGranting (omega arith)
