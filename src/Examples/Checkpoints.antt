-- ===== src/Examples/Checkpoints.antt =====
-- Tests and examples of the checkpoint manager.
use cyrene_yield.Common.{
  ◌≡◌, refl, String, Bool, true, false, not, ◌==◌, Option, none, some, List, [], ◌∷◌, take, sort_by,
}
use cyrene_yield.Checkpoint.{
  CheckpointInfo, Metadata, Entry, document, unreadable, list_checkpoints, find_latest_checkpoint,
  cleanup_old_checkpoints,
}
use cyrene_yield.Checkpoint.Cleanup.{Divided, removable, cleanup_removes_oldest}

abbrev entry : String → Bool → Option Metadata → Entry
entry path is_dir metadata = record {
  path = path;
  is_dir = is_dir;
  has_prefix = true;
  metadata = metadata;
}

abbrev entries : List Entry
entries =
    entry "checkpoint-30" true (some (document none (some 30)))
    ∷ entry "checkpoint-10" true (some (document none (some 10)))
    ∷ entry "checkpoint-15" true none
    ∷ entry "checkpoint-20" true (some (document (some "out/checkpoint-20") (some 20)))
    ∷ entry "checkpoint-25" true (some unreadable)
    ∷ entry "checkpoint-note" false none
    ∷ []

abbrev newest : CheckpointInfo
newest = record { path = "checkpoint-30"; step = 30 }

abbrev found : List CheckpointInfo
found =
    newest
    ∷ record { path = "checkpoint-10"; step = 10 }
    ∷ record { path = "out/checkpoint-20"; step = 20 }
    ∷ []

lists : list_checkpoints entries ≡ found
unfolding list_checkpoints
lists = refl

finds : find_latest_checkpoint entries ≡ some newest
unfolding find_latest_checkpoint
finds = refl

cleans :
    cleanup_old_checkpoints (λ path. not (path == "checkpoint-10")) 1 entries
    ≡ "out/checkpoint-20" ∷ []
unfolding cleanup_old_checkpoints take sort_by
cleans = refl

cleanup_removes_oldest_example :
    (chosen : List CheckpointInfo) × (kept : List CheckpointInfo) × Divided 2
      (list_checkpoints entries)
      chosen
      kept
    × (cleanup_old_checkpoints (λ path. true) 2 entries ≡ removable (λ path. true) chosen)
cleanup_removes_oldest_example = cleanup_removes_oldest (λ path. true) 2 entries
