-- ===== src/Ui/Parser.antt =====
-- `parse_status` of crates/cloud_sync_ui/src/parser.rs. The JSON parser is an argument.
use cloud_sync_lib.Base.{
  ◌-◌, Bool, false, ◌&&◌, Option, none, some, List, [], ◌∷◌, ◌++◌, if◌then◌else◌,
}
use cloud_sync_lib.Base.Lists.{length}
use cloud_sync_lib.Base.Slices.{slice}
use cloud_sync_lib.Base.Lines.{
  trim_whitespace, lines, trim_start_matches, without_first, without_last,
}
use cloud_sync_lib.Base.Text.{Text, codes, text_eq, starts_with, ends_with, split}

pub record Payload (Json : Type 0) : Type 0 where
  pub paused : Bool
  pub watch_directory : Text
  pub config_file : Text
  pub active_backends : List Text
  pub failed_backends : List Text
  pub simulated_backends : List Text
  pub backend_details : Json
  pub syncing : Bool
  pub web_ui_address : Text
  pub log_file : Text
  pub state_directory : Text

-- `line.trim_start_matches(label).trim()`
unfoldable pub value_of : Text → Text → Text
unfolding trim_start_matches trim_whitespace
value_of label line = trim_whitespace (trim_start_matches label line)

-- Without a quotation mark in front, and without one behind.
unfoldable pub unquote : Text → Text
unfolding without_first without_last
unquote s = without_last 34 (without_first 34 s)

abbrev pub keep_item : Text → List Text → List Text
keep_item [] rest = rest
keep_item (a ∷ s) rest = (a ∷ s) ∷ rest

unfoldable pub clean_item : Text → Text
unfolding trim_whitespace unquote
clean_item item = unquote (trim_whitespace item)

unfoldable pub items_of : List Text → List Text
items_of [] = []
items_of (p ∷ ps) = keep_item (clean_item p) (items_of ps)

-- The names that are pushed for a list in brackets; `&list_str[1..list_str.len() - 1]`.
unfoldable pub list_items : Text → List Text
list_items list_str =
    if starts_with list_str (codes "[") && ends_with list_str (codes "]")
    then items_of (split b',' (slice 1 (length list_str - 2) list_str))
    else []

module _ {Json : Type 0} (from_str : Text → Option Json) where
  abbrev pub with_details : Option Json → Payload Json → Payload Json
  with_details none p = p
  with_details (some details) p = record p { backend_details = details }

  -- The body of the loop over the lines.
  unfoldable pub read_line : Text → Payload Json → Payload Json
  read_line line p =
      if starts_with line (codes "Paused: ")
      then record p { paused = text_eq (value_of (codes "Paused: ") line) (codes "true") }
      else if starts_with line (codes "Watch Directory: ")
      then record p { watch_directory = unquote (value_of (codes "Watch Directory: ") line) }
      else if starts_with line (codes "Config File: ")
      then record p { config_file = unquote (value_of (codes "Config File: ") line) }
      else if starts_with line (codes "Active Backends: ")
      then record p {
        active_backends =
            p.active_backends ++ list_items (value_of (codes "Active Backends: ") line);
      }
      else if starts_with line (codes "Failed Backends: ")
      then record p {
        failed_backends =
            p.failed_backends ++ list_items (value_of (codes "Failed Backends: ") line);
      }
      else if starts_with line (codes "Simulated Backends: ")
      then record p {
        simulated_backends =
            p.simulated_backends ++ list_items (value_of (codes "Simulated Backends: ") line);
      }
      else if starts_with line (codes "Backend Details: ")
      then with_details (from_str (value_of (codes "Backend Details: ") line)) p
      else if starts_with line (codes "Syncing: ")
      then record p { syncing = text_eq (value_of (codes "Syncing: ") line) (codes "true") }
      else if starts_with line (codes "Web UI Address: ")
      then record p { web_ui_address = unquote (value_of (codes "Web UI Address: ") line) }
      else if starts_with line (codes "Log File: ")
      then record p { log_file = unquote (value_of (codes "Log File: ") line) }
      else if starts_with line (codes "State Directory: ")
      then record p { state_directory = unquote (value_of (codes "State Directory: ") line) }
      else p

  unfoldable pub read_lines : List Text → Payload Json → Payload Json
  read_lines [] p = p
  read_lines (l ∷ ls) p = read_lines ls (read_line l p)

  -- `empty` is `json!([])`.
  unfoldable pub parse_status : Json → Text → Payload Json
  parse_status empty raw = read_lines (lines raw) (record {
    paused = false;
    watch_directory = [];
    config_file = [];
    active_backends = [];
    failed_backends = [];
    simulated_backends = [];
    backend_details = empty;
    syncing = false;
    web_ui_address = [];
    log_file = [];
    state_directory = [];
  })
