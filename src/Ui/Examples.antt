-- ===== src/Ui/Examples.antt =====
-- A status with two backends, one of them failed.
use cloud_sync_lib.Base.{◌≡◌, refl, true, false, Option, none, some, [], ◌∷◌}
use cloud_sync_lib.Base.Text.{starts_with, Text, codes}
use cloud_sync_lib.Daemon.Status.{Status, quoted, format_status}
use cloud_sync_lib.Ui.Parser.{parse_status, unquote}
use cloud_sync_lib.Base.Lines.{trim_whitespace, trim_left, trim_right}
use cloud_sync_lib.Ui.RoundTrip.{payload_of, parse_status-format_status}

abbrev to_json : Unit {0} → Text
to_json u = codes "[]"

abbrev from_str : Text → Option (Unit {0})
from_str s = some tt

abbrev running : Status (Unit {0})
running = record {
  paused = true;
  watch_dir = codes "/home/user/CloudSync";
  config_file = codes "config.toml";
  backend_names = codes "Google Drive" ∷ codes "Box" ∷ [];
  failed_backends = codes "Box" ∷ [];
  simulated_backends = [];
  backend_details = tt;
  syncing = false;
  ui_addr = none;
  log_file = codes "daemon.log";
  state_dir = codes "sync_state";
}

parse_status-format_status_example :
    parse_status from_str tt (format_status quoted to_json running) ≡ payload_of running
unfolding starts_with trim_whitespace trim_left trim_right unquote
parse_status-format_status_example =
    parse_status-format_status quoted to_json from_str tt running
      (record {
        one_line = λ j. refl;
        no_label = λ j. refl;
        trimmed = λ j. refl;
        parses = λ j. refl;
      })
      (record {
        watch_dir = refl;
        config_file = record { one_line = refl; no_label = refl; trimmed = refl; unquoted = refl };
        backend_names = (
          record { named = refl; no_comma = refl; one_line = refl; escapes_nothing = refl },
          (record { named = refl; no_comma = refl; one_line = refl; escapes_nothing = refl }, tt),
        );
        failed_backends =
            (record { named = refl; no_comma = refl; one_line = refl; escapes_nothing = refl }, tt);
        simulated_backends = tt;
        ui_addr = record { one_line = refl; no_label = refl; trimmed = refl; unquoted = refl };
        log_file = refl;
        state_dir = refl;
      })
