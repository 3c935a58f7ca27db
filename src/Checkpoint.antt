-- ===== src/Checkpoint.antt =====
-- CheckpointManager of checkpoint/checkpoint_manager.py: what it finds in the output directory, the latest
-- checkpoint, and the cleanup of the old ones.
pub mod Cleanup
use cyrene_yield.Common.{
  ℕ, suc, ◌-◌, String, Bool, true, false, not, ◌||◌, Option, none, some, List, [], ◌∷◌, length, leb,
  ltb, take, sort_by, if◌then◌else◌,
}

-- Of the fields of CheckpointInfo, those that are read.
pub record CheckpointInfo : Type 0 where
  pub path : String
  pub step : ℕ

-- What the metadata file of a directory holds: nothing that can be read, or the keys `path` and `step`.
pub data Metadata : Type 0 where
  unreadable : Metadata
  document : Option String → Option ℕ → Metadata

-- An entry of the output directory.
pub record Entry : Type 0 where
  pub path : String
  pub is_dir : Bool
  -- the name begins with "checkpoint-"
  pub has_prefix : Bool
  pub metadata : Option Metadata

abbrev pub get_or {ℓ} : {A : Type ℓ} → Option A → A → A
get_or none default = default
get_or (some a) default = a

unfoldable pub checkpoint_of : Entry → Option CheckpointInfo
checkpoint_of e = elim e.metadata [
  | none ↦ none
  | some unreadable ↦ none
  | some (document path step) ↦ some (record { path = get_or path e.path; step = get_or step 0 })
]

abbrev pub add_found : Option CheckpointInfo → List CheckpointInfo → List CheckpointInfo
add_found none cs = cs
add_found (some c) cs = c ∷ cs

-- _list_checkpoints
unfoldable pub list_checkpoints : List Entry → List CheckpointInfo
unfolding checkpoint_of
list_checkpoints [] = []
list_checkpoints (e ∷ es) =
    let rest = list_checkpoints es in
    if not e.is_dir || not e.has_prefix then rest else add_found (checkpoint_of e) rest

-- max(checkpoints, key=...): the first of those with the greatest step
unfoldable pub max_step : CheckpointInfo → List CheckpointInfo → CheckpointInfo
max_step best [] = best
max_step best (c ∷ cs) = max_step (if ltb best.step c.step then c else best) cs

abbrev pub latest_of : List CheckpointInfo → Option CheckpointInfo
latest_of [] = none
latest_of (c ∷ cs) = some (max_step c cs)

-- find_latest_checkpoint
unfoldable pub find_latest_checkpoint : List Entry → Option CheckpointInfo
unfolding list_checkpoints max_step
find_latest_checkpoint entries = latest_of (list_checkpoints entries)

abbrev pub step_le : CheckpointInfo → CheckpointInfo → Bool
step_le a b = leb a.step b.step

-- xs[: n - m]: a bound below zero counts from the end of the list, and is at its begin if it is before it.
unfoldable pub slice_to_difference : {A : Type 0} → ℕ → ℕ → List A → List A
slice_to_difference n m xs = take (if leb m n then n - m else length xs - (m - n)) xs

-- checkpoints[: len(checkpoints) - self.save_total_limit], of the sorted checkpoints
unfoldable pub to_remove : ℕ → List CheckpointInfo → List CheckpointInfo
unfolding slice_to_difference
to_remove save_total_limit checkpoints =
    slice_to_difference (length checkpoints) save_total_limit (sort_by step_le checkpoints)

-- The loop: the paths that shutil.rmtree removes; it raises on those where `removes` is false.
unfoldable pub remove_all : (String → Bool) → List CheckpointInfo → List String
remove_all removes [] = []
remove_all removes (c ∷ cs) =
    let rest = remove_all removes cs in if removes c.path then c.path ∷ rest else rest

-- cleanup_old_checkpoints
unfoldable pub cleanup_old_checkpoints : (String → Bool) → ℕ → List Entry → List String
unfolding to_remove remove_all list_checkpoints
cleanup_old_checkpoints removes save_total_limit entries =
    let checkpoints = list_checkpoints entries in
    if leb (length checkpoints) save_total_limit
    then []
    else remove_all removes (to_remove save_total_limit checkpoints)
