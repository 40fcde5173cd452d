-- ===== src/Providers/Retries/Examples.antt =====
-- An operation of which the first two calls fail.
use cloud_sync_lib.Base.{ℕ, suc, ◌*◌, ◌^◌, ltb, if◌then◌else◌, refl, Option, none, some, arith}
use cloud_sync_lib.Base.Text.{codes}
use cloud_sync_lib.Storage.Errors.{StorageError, provider, Result, ok, err}
use cloud_sync_lib.Providers.Samples.{foreign}
use cloud_sync_lib.Providers.Retries.{HelperConfig, retry_helper}
use cloud_sync_lib.Providers.Retries.Loop.{IsBackedOff, retry_helper-IsBackedOff}

abbrev no_status : Unit {0} → Option ℕ
no_status e = none

abbrev defaults : HelperConfig
defaults = record { max_attempts = 5; initial_delay = 500000000 }

-- A delay is limited, up to the longest `Duration`.
abbrev limited : ℕ → Option ℕ
limited d = if ltb (2 * d) (2 ^ 64 * 1000000000) then some (2 * d) else none

abbrev flaky : ℕ → Result (StorageError foreign) ℕ × ℕ
flaky (suc (suc w)) = (ok w, suc (suc w))
flaky w = (err (provider (codes "busy") (some 503)), suc w)

retry_helper-IsBackedOff_example :
    IsBackedOff no_status flaky defaults limited 0 500000000 0
      (retry_helper no_status flaky defaults limited 5 0)
retry_helper-IsBackedOff_example =
    retry_helper-IsBackedOff no_status flaky defaults limited (omega arith) (omega arith) 5 0
      (1000000000, refl, (2000000000, refl, (4000000000, refl, (8000000000, refl, tt))))
      (omega arith)
