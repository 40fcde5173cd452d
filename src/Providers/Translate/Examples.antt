-- ===== src/Providers/Translate/Examples.antt =====
-- A response with status 429 and a wait of two seconds.
use cloud_sync_lib.Providers.Samples.{foreign}
use cloud_sync_lib.Base.{false, true, some}
use cloud_sync_lib.Base.Text.{codes}
use cloud_sync_lib.Providers.Translate.{Response, is_refused, translate_http_error}
use cloud_sync_lib.Providers.Translate.Classes.{IsClassed, translate_http_error-IsClassed}

abbrev limited : Response
limited = record {
  status = 429;
  retry_after = some 2;
  status_digits = codes "429";
  status_text = codes "429 Too Many Requests";
  body = codes "slow down";
}

translate_http_error-IsClassed_example :
    IsClassed
      (translate_http_error {F = foreign} limited (codes "Box") (codes "upload"))
      false
      false
      true
      false
      true
      (some 2000000000)
unfolding is_refused
translate_http_error-IsClassed_example =
    translate_http_error-IsClassed {F = foreign} limited (codes "Box") (codes "upload")
