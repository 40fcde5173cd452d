-- ===== src/Daemon/Watcher/Examples.antt =====
-- Two backends, of which one propagates deletions, and a watched directory with one file.
use cloud_sync_lib.Base.{Bool, true, false, none, some, List, [], ◌∷◌}
use cloud_sync_lib.Base.Text.{Text, codes}
use cloud_sync_lib.Storage.Policy.{one_way, one_way_no_deletions}
use cloud_sync_lib.Daemon.Watcher.{
  Event, modify_data, ActiveBackend, DaemonState, LocalFiles, Job, delete_path, sync_path,
}

abbrev files : LocalFiles
files = record {
  exists = λ p. true;
  metadata = λ p. some (record { is_file = true; is_dir = false });
  canonicalize = λ p. none;
}

abbrev nothing_ignored : Text → Text → Bool → Bool
nothing_ignored dir path is_dir = false

abbrev box : ActiveBackend
box = record { name = codes "box"; policy = record { mode = one_way }; selective_sync = none }

abbrev archive : ActiveBackend
archive = record box { name = codes "archive"; policy = record { mode = one_way_no_deletions } }

abbrev state : DaemonState
state = record {
  paused = false;
  backends = box ∷ archive ∷ [];
  watch_dir = codes "/w";
  gitignore = λ path is_dir. false;
}

abbrev edit : Event
edit = record { kind = modify_data; paths = codes "/w/a" ∷ [] }

abbrev sent : List Job
sent =
    sync_path (codes "box") (codes "/w/a") (codes "a") false
    ∷ sync_path (codes "archive") (codes "/w/a") (codes "a") false
    ∷ []

abbrev gone : List Job
gone = delete_path (codes "box") [] ∷ []
