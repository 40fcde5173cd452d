-- ===== src/Daemon/Status.antt =====
-- The `status` command of crates/cloud_sync_daemon/src/control.rs. The `{:?}` of a string and the
-- JSON of the details are arguments; the order of the errors by backend is that of the list.
use cloud_sync_lib.Base.{
  Bool, true, false, ◌&&◌, ◌||◌, not, Option, none, some, List, [], ◌∷◌, ◌++◌, if◌then◌else◌, ◌-◌,
}
use cloud_sync_lib.Base.Lists.{length, any, is_empty}
use cloud_sync_lib.Base.Slices.{slice}
use cloud_sync_lib.Base.Text.{Text, codes, text_eq, starts_with, ends_with, contains}

-- What the answer is made of.
pub record Status (Json : Type 0) : Type 0 where
  pub paused : Bool
  pub watch_dir : Text
  pub config_file : Text
  pub backend_names : List Text
  pub failed_backends : List Text
  pub simulated_backends : List Text
  pub backend_details : Json
  pub syncing : Bool
  pub ui_addr : Option Text
  pub log_file : Text
  pub state_dir : Text

abbrev pub show_bool : Bool → Text
show_bool true = codes "true"
show_bool false = codes "false"

abbrev pub ui_addr_or_dash : Option Text → Text
ui_addr_or_dash none = codes "-"
ui_addr_or_dash (some a) = a

-- The items of a list after its first, each behind a comma and a space.
abbrev pub show_more : (Text → Text) → List Text → Text
show_more debug [] = []
show_more debug (n ∷ ns) = codes ", " ++ debug n ++ show_more debug ns

-- `{:?}` of a `Vec<String>`
unfoldable pub show_list : (Text → Text) → List Text → Text
show_list debug [] = codes "[]"
show_list debug (n ∷ ns) = b'[' ∷ (debug n ++ show_more debug ns) ++ b']' ∷ []

-- A line: its label, its value and the end of the line.
abbrev pub line_of : Text → Text → Text → Text
line_of label value rest = (label ++ value) ++ 10 ∷ rest

abbrev pub quoted : Text → Text
quoted v = 34 ∷ v ++ 34 ∷ []

unfoldable pub format_status : {Json : Type 0} → (Text → Text) → (Json → Text) → Status Json → Text
unfolding show_list
format_status debug to_json s = line_of (codes "Status: ") (codes "OK") (
    line_of (codes "Paused: ") (show_bool s.paused) (
      line_of (codes "Watch Directory: ") (quoted s.watch_dir) (
        line_of (codes "Config File: ") s.config_file (
          line_of (codes "Active Backends: ") (show_list debug s.backend_names) (
            line_of (codes "Failed Backends: ") (show_list debug s.failed_backends) (
              line_of (codes "Simulated Backends: ") (show_list debug s.simulated_backends) (
                line_of (codes "Backend Details: ") (to_json s.backend_details) (
                  line_of (codes "Syncing: ") (show_bool s.syncing) (
                    line_of (codes "Web UI Address: ") (ui_addr_or_dash s.ui_addr) (
                      line_of (codes "Log File: ") (quoted s.log_file)
                        (line_of (codes "State Directory: ") (quoted s.state_dir) [])))))))))))

-- A name without the wrapper that the encryption puts around it.
unfoldable pub clean_name : Text → Text
unfolding starts_with ends_with
clean_name raw_name =
    if starts_with raw_name (codes "Encrypted(") && ends_with raw_name (codes ")")
    then slice 10 (length raw_name - 11) raw_name
    else raw_name

unfoldable pub is_placeholder : Text → Bool
unfolding contains
is_placeholder val =
    is_empty val
    || contains val (codes "PLACEHOLDER")
    || contains val (codes "your_")
    || contains val (codes "your-")

-- The providers of the configuration in their order, each with whether it is enabled with a
-- placeholder for its secret.
unfoldable pub add_placeholders : List (Text × Bool) → List Text → List Text
unfolding text_eq
add_placeholders [] failed = failed
add_placeholders ((name, is_placeholder_enabled) ∷ rest) failed = add_placeholders rest (
    if is_placeholder_enabled && not (any (λ n. text_eq n name) failed)
    then failed ++ name ∷ []
    else failed)

-- What the daemon knows of an active backend.
pub record Connected : Type 0 where
  pub name : Text
  pub is_simulated : Bool
  pub simulation_reason : Option Text

pub record Detail : Type 0 where
  pub name : Text
  pub mode : Text
  pub is_simulated : Bool
  pub simulation_reason : Option Text
  pub is_failed : Bool

unfoldable pub detail_of : List Text → Connected → Detail
unfolding clean_name text_eq
detail_of failed ab =
    let name = clean_name ab.name in
    let is_failed = any (λ n. text_eq n name) failed in
    record {
      name = name;
      mode =
          if is_failed
          then codes "failed"
          else if ab.is_simulated
          then codes "simulated"
          else codes "cloud";
      is_simulated = ab.is_simulated;
      simulation_reason = ab.simulation_reason;
      is_failed = is_failed;
    }

unfoldable pub add_simulated : List Connected → List Text → List Text
unfolding clean_name text_eq
add_simulated [] simulated = simulated
add_simulated (ab ∷ rest) simulated = add_simulated rest (
    if ab.is_simulated && not (any (λ n. text_eq n (clean_name ab.name)) simulated)
    then simulated ++ clean_name ab.name ∷ []
    else simulated)
