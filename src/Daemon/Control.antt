-- ===== src/Daemon/Control.antt =====
-- `handle_control_command` of crates/cloud_sync_daemon/src/control.rs. What the handler calls of other
-- parts is `Services`; logging and events have no counterpart, and the task that `sync` spawns is
-- part of the answer.
pub mod Resolve
pub mod Drops
pub mod Spaces
pub mod Exclusive
pub mod Examples
use cloud_sync_lib.Base.{
  zero, suc, suc, ℕ, ◌+◌, ◌*◌, ◌%◌, ◌^◌, Bool, true, false, Option, none, some, List, [], ◌∷◌, ◌++◌,
  map, if◌then◌else◌, unwrap_or,
}
use cloud_sync_lib.Base.Lists.{length}
use cloud_sync_lib.Base.Slices.{drop}
use cloud_sync_lib.Base.Lines.{split_whitespace}
use cloud_sync_lib.Base.Text.{Text, codes, text_eq, starts_with}
use cloud_sync_lib.Base.Dict.{Dict}
use cloud_sync_lib.Storage.Policy.{ConflictPolicy, rename_local}
use cloud_sync_lib.Storage.Errors.{Foreign, StorageError, Result, ok, err}
use cloud_sync_lib.Engine.Conflict.Manager.{ConflictRecord}
use cloud_sync_lib.Engine.Conflict.Registry.{to_lowercase}
use cloud_sync_lib.Daemon.Status.{
  Connected, Detail, clean_name, add_placeholders, detail_of, add_simulated, format_status,
}
use cloud_sync_lib.Daemon.Control.Resolve.{NamedBackend, Resolved, resolve_conflict, clear}

-- What a reload and the status read of a configuration: its providers are `placeholders`, each with
-- whether it is enabled with a placeholder for its secret, and `backends`, given the limiters.
pub record ControlConfig (F : Foreign) (W Session : Type 0) : Type 0 where
  pub max_upload_rate : Option ℕ
  pub max_download_rate : Option ℕ
  pub exclude : Option (List Text)
  pub conflict_policy : Option ConflictPolicy
  pub dry_run : Option Bool
  pub placeholders : List (Text × Bool)
  pub backends : Option ℕ → Option ℕ → List (NamedBackend F W Session)

pub record ControlState (F : Foreign) (W Session : Type 0) : Type 0 where
  pub paused : Bool
  pub backends : List (NamedBackend F W Session)
  pub watch_dir : Text
  pub config_file : Text
  pub syncing : Bool
  pub ui_addr : Option Text
  pub gitignore : Text → Bool → Bool
  pub exclude : Option (List Text)
  pub upload_limiter : Option ℕ
  pub download_limiter : Option ℕ
  pub connection_errors : List Text
  pub conflict_policy : ConflictPolicy
  pub dry_run : Bool
  pub conflicts : Dict ConflictRecord
  pub log_file : Text
  pub state_dir : Text

pub record Services (F : Foreign) (W Session : Type 0) : Type 0 where
  pub show : StorageError F → Text
  pub debug : Text → Text
  pub details_json : List Detail → Text
  pub conflicts_json : Dict ConflictRecord → Result Text Text
  pub plans_json : ControlState F W Session → W → Text × W
  pub load_config : Text → W → Result Text (ControlConfig F W Session) × W
  pub build_gitignore : Text → Option (List Text) → Text → Bool → Bool
  pub read_log : Text → W → Result Text Text
  pub rename_file : Text → Text → W → Option Text × W

pub record Answered (F : Foreign) (W Session : Type 0) : Type 0 where
  pub answer : Text
  pub state : ControlState F W Session
  pub world : W
  pub spawns_sync : Bool
  pub stops : Bool

abbrev nl : Text
nl = 10 ∷ []

-- `rate * 1024` on a `u64`
abbrev limiter_of : Option ℕ → Option ℕ
limiter_of none = none
limiter_of (some rate) = some (rate * 1024 % 2 ^ 64)

module _ {F : Foreign} {W Session : Type 0} (services : Services F W Session) where
  abbrev pub answers : Text → ControlState F W Session → W → Answered F W Session
  answers text s w = record {
    answer = text;
    state = s;
    world = w;
    spawns_sync = false;
    stops = false;
  }

  abbrev connected_of : W → NamedBackend F W Session → Connected
  connected_of w b = record {
    name = b.name;
    is_simulated = b.backend.is_simulated w;
    simulation_reason = b.backend.simulation_reason w;
  }

  abbrev without_verbatim : Text → Text
  without_verbatim p = if starts_with p (92 ∷ 92 ∷ 63 ∷ 92 ∷ []) then drop 4 p else p

  abbrev with_placeholders : Result Text (ControlConfig F W Session) → List Text → List Text
  with_placeholders (err e) failed = failed
  with_placeholders (ok config) failed = add_placeholders config.placeholders failed

  unfoldable pub status_text :
      Result Text (ControlConfig F W Session) → ControlState F W Session → W → Text
  unfolding add_placeholders clean_name detail_of add_simulated format_status starts_with
  status_text config s w =
      let failed = with_placeholders config (map clean_name s.connection_errors) in
      let connected = map (connected_of w) s.backends in
      format_status services.debug services.details_json (record {
        paused = s.paused;
        watch_dir = without_verbatim s.watch_dir;
        config_file = s.config_file;
        backend_names = map (λ b. b.name) s.backends;
        failed_backends = failed;
        simulated_backends = add_simulated connected [];
        backend_details = map (detail_of failed) connected;
        syncing = s.syncing;
        ui_addr = s.ui_addr;
        log_file = s.log_file;
        state_dir = s.state_dir;
      })

  abbrev pub reloaded :
      Result Text (ControlConfig F W Session) → ControlState F W Session → W → Answered F W Session
  reloaded (err e) s w = answers (codes "Error: Failed to reload config: " ++ e ++ nl) s w
  reloaded (ok config) s w =
      let up = limiter_of config.max_upload_rate in
      let down = limiter_of config.max_download_rate in
      answers (codes "Status: Config reloaded successfully" ++ nl)
        (record s {
          backends = config.backends up down;
          upload_limiter = up;
          download_limiter = down;
          exclude = config.exclude;
          gitignore = services.build_gitignore s.watch_dir config.exclude;
          conflict_policy = unwrap_or config.conflict_policy rename_local;
          dry_run = unwrap_or config.dry_run false;
        })
        w

  abbrev log_text : Text → Result Text Text → Text
  log_text file (ok content) =
      codes "Status: OK" ++ nl ++ codes "Log File: \"" ++ file ++ codes "\"" ++ nl ++ nl ++ content
  log_text file (err e) =
      codes "Status: Error"
      ++ nl
      ++ codes "Could not read log file '"
      ++ file
      ++ codes "': "
      ++ e
      ++ nl

  abbrev conflicts_text : Result Text Text → Text
  conflicts_text (ok json) = json ++ nl
  conflicts_text (err e) = codes "Error: Failed to serialize conflicts: " ++ e ++ nl

  abbrev pub triggered : Bool → ControlState F W Session → W → Answered F W Session
  triggered true s w = answers (codes "Error: Sync already in progress" ++ nl) s w
  triggered false s w =
      record (answers (codes "Status: Sync triggered in background" ++ nl)
        (record s { syncing = true }) w) { spawns_sync = true }

  -- `parts[1..].join(" ")`
  unfoldable pub join_words : List Text → Text
  join_words [] = []
  join_words (a ∷ []) = a
  join_words (a ∷ b ∷ rest) = a ++ 32 ∷ join_words (b ∷ rest)

  abbrev pub clear_command : List Text → ControlState F W Session → W → Answered F W Session
  clear_command [] s w =
      answers
        (codes "Error: clear command requires a provider name argument (e.g. 'clear MEGA')" ++ nl) s
        w
  clear_command (a ∷ rest) s w =
      let (text, w') = clear services.show (join_words (a ∷ rest)) s.backends w in answers text s w'

  -- The words after `resolve_conflict`: the third and all later ones are not looked at.
  abbrev pub resolve_command : List Text → ControlState F W Session → W → Answered F W Session
  resolve_command (rel_path ∷ resolution ∷ more) s w =
      let r =
        resolve_conflict services.show services.rename_file s.watch_dir s.backends s.conflicts
          rel_path (to_lowercase resolution) w in
      answers r.answer (record s { conflicts = r.conflicts }) r.world
  resolve_command _ s w =
      answers
        (codes
            "Error: resolve_conflict requires <path> and <resolution> (use_local, use_remote, keep_both, skip)"
          ++ nl)
        s w

  abbrev pub reload_command :
      Result Text (ControlConfig F W Session) × W → ControlState F W Session → Answered F W Session
  reload_command (config, w) s = reloaded config s w

  abbrev pub status_command :
      Result Text (ControlConfig F W Session) × W → ControlState F W Session → Answered F W Session
  status_command (config, w) s = answers (status_text config s w) s w

  abbrev pub plan_command : Text × W → ControlState F W Session → Answered F W Session
  plan_command (json, w) s = answers (json ++ nl) s w

  -- The command and its arguments.
  unfoldable pub dispatch : Text → List Text → ControlState F W Session → W → Answered F W Session
  dispatch head args s w =
      if text_eq head (codes "status")
      then status_command (services.load_config s.config_file w) s
      else if text_eq head (codes "get_log")
      then answers (log_text s.log_file (services.read_log s.log_file w)) s w
      else if text_eq head (codes "log")
      then answers (log_text s.log_file (services.read_log s.log_file w)) s w
      else if text_eq head (codes "pause")
      then answers (codes "Status: Paused" ++ nl) (record s { paused = true }) w
      else if text_eq head (codes "resume")
      then answers (codes "Status: Resumed" ++ nl) (record s { paused = false }) w
      else if text_eq head (codes "reload")
      then reload_command (services.load_config s.config_file w) s
      else if text_eq head (codes "sync")
      then triggered s.syncing s w
      else if text_eq head (codes "clear")
      then clear_command args s w
      else if text_eq head (codes "conflicts")
      then answers (conflicts_text (services.conflicts_json s.conflicts)) s w
      else if text_eq head (codes "resolve_conflict")
      then resolve_command args s w
      else if text_eq head (codes "get_plan")
      then plan_command (services.plans_json s w) s
      else if text_eq head (codes "plan")
      then plan_command (services.plans_json s w) s
      else if text_eq head (codes "stop")
      then record (answers (codes "Status: Stopping daemon..." ++ nl) s w) { stops = true }
      else answers
          (codes
              "Error: Unknown command. Supported: status, pause, resume, reload, sync, clear, conflicts, resolve_conflict, stop"
            ++ nl)
          s w

  abbrev pub handle_words : List Text → ControlState F W Session → W → Answered F W Session
  handle_words [] s w = answers (codes "Error: Empty command" ++ nl) s w
  handle_words (head ∷ args) s w = dispatch head args s w

  unfoldable pub handle_control_command : Text → ControlState F W Session → W → Answered F W Session
  handle_control_command cmd s w = handle_words (split_whitespace cmd) s w

  -- A command that a connection reads, or the end of a synchronisation that was spawned.
  pub data ControlEvent : Type 0 where
    received : Text → ControlEvent
    completed : ControlEvent

  -- The last step of a synchronisation, one of those that run.
  abbrev pub complete : ControlState F W Session → ℕ → ControlState F W Session × ℕ
  complete s zero = (s, zero)
  complete s (suc running) = (record s { syncing = false }, running)

  -- Events in the order in which they take the lock of the state: the state at the end and how many
  -- synchronisations run then.
  unfoldable pub run_events :
      List ControlEvent → ControlState F W Session → ℕ → W → ControlState F W Session × ℕ
  run_events [] s running w = (s, running)
  run_events (received cmd ∷ events) s running w =
      let r = handle_control_command cmd s w in
      run_events events r.state ((if r.spawns_sync then 1 else 0) + running) r.world
  run_events (completed ∷ events) s running w =
      let (s', running') = complete s running in run_events events s' running' w
