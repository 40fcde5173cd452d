-- ===== src/Ui/RoundTrip.antt =====
-- The web interface reads what the daemon of crates/cloud_sync_daemon/src/control.rs prints.
use cloud_sync_lib.Ui.Fields.{
  IsRaw, IsCompact, read_line-paused, read_line-watch_directory, read_line-config_file,
  read_line-active_backends, read_line-failed_backends, read_line-simulated_backends,
  read_line-backend_details, read_line-syncing, read_line-web_ui_address, read_line-log_file,
  read_line-state_directory,
}
use cloud_sync_lib.Ui.Lists.{IsPlain, is_line-quoted, is_line-show_list}
use cloud_sync_lib.Base.{◌≡◌, refl, ap, ◌∙◌, Bool, true, false, Option, [], ◌++◌}
use cloud_sync_lib.Base.Lists.{All}
use cloud_sync_lib.Base.Lines.{is_line, lines, lines-append}
use cloud_sync_lib.Base.Text.{Text, codes, starts_with}
use cloud_sync_lib.Daemon.Status.{
  Status, show_bool, ui_addr_or_dash, show_list, line_of, quoted, format_status,
}
use cloud_sync_lib.Ui.Parser.{Payload, read_line, read_lines, parse_status}

-- What the interface shows of a status.
abbrev pub payload_of : {Json : Type 0} → Status Json → Payload Json
payload_of s = record {
  paused = s.paused;
  watch_directory = s.watch_dir;
  config_file = s.config_file;
  active_backends = s.backend_names;
  failed_backends = s.failed_backends;
  simulated_backends = s.simulated_backends;
  backend_details = s.backend_details;
  syncing = s.syncing;
  web_ui_address = ui_addr_or_dash s.ui_addr;
  log_file = s.log_file;
  state_directory = s.state_dir;
}

module _ {Json : Type 0} (debug : Text → Text) (to_json : Json → Text)
    (from_str : Text → Option Json) where
  read_lines-nil : (p : Payload Json) → read_lines from_str (lines []) p ≡ p
  unfolding read_lines lines
  read_lines-nil p = refl

  is_line-show_bool : (v : Bool) → is_line (show_bool v) ≡ true
  is_line-show_bool true = refl
  is_line-show_bool false = refl

  read_line-status : (p : Payload Json) → read_line from_str (codes "Status: " ++ codes "OK") p ≡ p
  unfolding read_line starts_with
  read_line-status p = refl

  pub record IsPrintable (s : Status Json) : Type 0 where
    pub watch_dir : is_line s.watch_dir ≡ true
    pub config_file : IsRaw (codes "Config File: ") s.config_file
    pub backend_names : All (IsPlain debug) s.backend_names
    pub failed_backends : All (IsPlain debug) s.failed_backends
    pub simulated_backends : All (IsPlain debug) s.simulated_backends
    pub ui_addr : IsRaw (codes "Web UI Address: ") (ui_addr_or_dash s.ui_addr)
    pub log_file : is_line s.log_file ≡ true
    pub state_dir : is_line s.state_dir ≡ true

  read_one :
      (label v rest : Text) (p : Payload Json) {q : Payload Json}
      → is_line (label ++ v) ≡ true
      → read_line from_str (label ++ v) p ≡ q
      → read_lines from_str (lines (line_of label v rest)) p ≡ read_lines from_str (lines rest) q
  unfolding read_lines
  read_one label v rest p h e =
      ap (λ ls. read_lines from_str ls p) (lines-append (label ++ v) rest h)
      ∙ ap (λ r. read_lines from_str (lines rest) r) e

  -- A status that is printed and read again is shown as it is: with names that are plain, values
  -- of one line, and raw values that survive on a line, every field arrives.
  pub parse_status-format_status :
      (empty : Json) (s : Status Json)
      → IsCompact to_json from_str
      → IsPrintable s
      → parse_status from_str empty (format_status debug to_json s) ≡ payload_of s
  unfolding parse_status format_status
  parse_status-format_status empty s c h =
      read_one (codes "Status: ") (codes "OK") _ _ refl (read_line-status _)
      ∙ read_one (codes "Paused: ") (show_bool s.paused) _ _ (is_line-show_bool s.paused)
          (read_line-paused debug to_json from_str s.paused _)
      ∙ read_one (codes "Watch Directory: ") (quoted s.watch_dir) _ _
          (is_line-quoted s.watch_dir h.watch_dir)
          (read_line-watch_directory debug to_json from_str s.watch_dir _)
      ∙ read_one (codes "Config File: ") s.config_file _ _ h.config_file.one_line
          (read_line-config_file debug to_json from_str s.config_file _ h.config_file)
      ∙ read_one (codes "Active Backends: ") (show_list debug s.backend_names) _ _
          (is_line-show_list debug s.backend_names h.backend_names)
          (read_line-active_backends debug to_json from_str s.backend_names _ h.backend_names)
      ∙ read_one (codes "Failed Backends: ") (show_list debug s.failed_backends) _ _
          (is_line-show_list debug s.failed_backends h.failed_backends)
          (read_line-failed_backends debug to_json from_str s.failed_backends _ h.failed_backends)
      ∙ read_one (codes "Simulated Backends: ") (show_list debug s.simulated_backends) _ _
          (is_line-show_list debug s.simulated_backends h.simulated_backends)
          (read_line-simulated_backends debug to_json from_str s.simulated_backends _
            h.simulated_backends)
      ∙ read_one (codes "Backend Details: ") (to_json s.backend_details) _ _
          (c.one_line s.backend_details)
          (read_line-backend_details debug to_json from_str s.backend_details _ c)
      ∙ read_one (codes "Syncing: ") (show_bool s.syncing) _ _ (is_line-show_bool s.syncing)
          (read_line-syncing debug to_json from_str s.syncing _)
      ∙ read_one (codes "Web UI Address: ") (ui_addr_or_dash s.ui_addr) _ _ h.ui_addr.one_line
          (read_line-web_ui_address debug to_json from_str (ui_addr_or_dash s.ui_addr) _ h.ui_addr)
      ∙ read_one (codes "Log File: ") (quoted s.log_file) _ _ (is_line-quoted s.log_file h.log_file)
          (read_line-log_file debug to_json from_str s.log_file _)
      ∙ read_one (codes "State Directory: ") (quoted s.state_dir) [] _
          (is_line-quoted s.state_dir h.state_dir)
          (read_line-state_directory debug to_json from_str s.state_dir _)
      ∙ read_lines-nil (payload_of s)
