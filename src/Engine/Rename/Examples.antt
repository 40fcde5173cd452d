-- ===== src/Engine/Rename/Examples.antt =====
-- The rename detector at the inputs of its tests.
use cloud_sync_lib.Base.{◌≡◌, refl, none, some, [], ◌∷◌, ◌++◌}
use cloud_sync_lib.Base.Lists.{All}
use cloud_sync_lib.Base.Text.{codes}
use cloud_sync_lib.Base.Count.{SameItems}
use cloud_sync_lib.Engine.Rename.{Detection, detect_moves}
use cloud_sync_lib.Engine.Rename.Take.{Items, paths}
use cloud_sync_lib.Engine.Rename.Detected.{
  sources, targets, Apart, MovesSameFile, detect_moves_conserves, detect_moves_sound,
}

abbrev dels : Items
dels =
    record { rel_path = codes "docs/old.pdf"; size = 1048576; checksum = some (codes "h1") }
    ∷ record { rel_path = codes "a/data.bin"; size = 2048; checksum = none }
    ∷ record { rel_path = codes "gone.txt"; size = 7; checksum = none }
    ∷ []

abbrev adds : Items
adds =
    record { rel_path = codes "b/data.bin"; size = 2048; checksum = none }
    ∷ record { rel_path = codes "archive/new.pdf"; size = 1048576; checksum = some (codes "h1") }
    ∷ []

abbrev found : Detection
found = record {
  moves =
      record { source = codes "docs/old.pdf"; target = codes "archive/new.pdf"; size = 1048576 }
      ∷ record { source = codes "a/data.bin"; target = codes "b/data.bin"; size = 2048 }
      ∷ [];
  unmatched_deletions = record { rel_path = codes "gone.txt"; size = 7; checksum = none } ∷ [];
  unmatched_additions = [];
}

detects : detect_moves dels adds ≡ some found
unfolding detect_moves
detects = refl

detect_moves_conserves_example :
    (d : Detection) × (detect_moves dels adds ≡ some d)
    × SameItems (sources d.moves ++ paths d.unmatched_deletions) (paths dels)
    × SameItems (targets d.moves ++ paths d.unmatched_additions) (paths adds)
detect_moves_conserves_example = detect_moves_conserves dels adds

detect_moves_sound_example :
    All (MovesSameFile dels adds) found.moves
    × Apart found.unmatched_deletions found.unmatched_additions
detect_moves_sound_example = detect_moves_sound dels adds found detects
