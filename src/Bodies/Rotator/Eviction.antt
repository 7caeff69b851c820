-- ===== src/Bodies/Rotator/Eviction.antt =====
-- internal/bodies/rotator.go: the size budget over the three tiers, oldest files first, and the cycle of all phases.
use smart_proxy.Base.{
  ℕ, ◌+◌, ◌-◌, Bool, true, false, ◌&&◌, ◌||◌, List, [], ◌∷◌, ◌++◌, map, ltb, leb, if◌then◌else◌,
  ◌==◌, nat_eq, text_eq,
}
use smart_proxy.Base.Text.{Text, text, has_suffix}
use smart_proxy.Base.Dict.{Dict, erase}
use smart_proxy.Bodies.Rotator.{
  Disk, BodyFile, Outcome, Outside, Rotator, fail, done, notify_orphans, list_objects,
  base_file_name, jsonl, recent, archive, promote_current_to_recent, compress_to_archive,
  purge_expired,
}

-- `is_local` is whether the item has a local path, then `place` is its name there, otherwise its key
pub record InventoryItem : Type 0 where
  pub file : Text
  pub is_local : Bool
  pub place : Text
  pub size : ℕ
  pub mod_time : ℕ

unfoldable pub local_items : Dict Text BodyFile → List InventoryItem
unfolding has_suffix
local_items [] = []
local_items ((name, f) ∷ entries) =
    let item : InventoryItem = record {
      file = name;
      is_local = true;
      place = name;
      size = f.size;
      mod_time = f.mod_time;
    } in
    if has_suffix name jsonl then item ∷ local_items entries else local_items entries

unfoldable pub object_items : Dict Text BodyFile → List InventoryItem
unfolding base_file_name
object_items [] = []
object_items ((key, f) ∷ objects) =
    record {
      file = base_file_name key;
      is_local = false;
      place = key;
      size = f.size;
      mod_time = f.mod_time;
    }
    ∷ object_items objects

abbrev pub total_size : List InventoryItem → ℕ
total_size [] = 0
total_size (i ∷ items) = i.size + total_size items

-- sort.SliceStable by time
unfoldable pub insert_item : InventoryItem → List InventoryItem → List InventoryItem
insert_item i [] = i ∷ []
insert_item i (j ∷ items) =
    if ltb j.mod_time i.mod_time then j ∷ insert_item i items else i ∷ j ∷ items

unfoldable pub sort_items : List InventoryItem → List InventoryItem
unfolding insert_item
sort_items [] = []
sort_items (i ∷ items) = insert_item i (sort_items items)

unfoldable pub size_inventory : Disk → List InventoryItem
unfolding local_items object_items sort_items list_objects
size_inventory disk = sort_items (
    local_items disk.current
    ++ (object_items (list_objects recent disk.backend)
        ++ object_items (list_objects archive disk.backend)))

unfoldable pub delete_item : Disk → InventoryItem → Disk
unfolding erase
delete_item disk i =
    if i.is_local
    then record disk { current = erase i.place disk.current }
    else record disk { backend = erase i.place disk.backend }

module _ (out : Outside) (r : Rotator) where
  abbrev pub deletion_fails : InventoryItem → Bool
  deletion_fails i = if i.is_local then out.remove_fails i.place else out.delete_fails i.place

  -- the items that the loop deletes, what is left of the total, and whether it succeeds
  unfoldable pub evict_items : List InventoryItem → ℕ → Text → List InventoryItem × ℕ × Bool
  evict_items [] total active = ([], total, true)
  evict_items (i ∷ items) total active =
      let skipped = evict_items items total active in
      let (deleted, left, fine) = evict_items items (total - i.size) active in
      if leb total r.max_bytes
      then ([], total, true)
      else if i.file == active
      then skipped
      else if deletion_fails i
      then ([], total, false)
      else (i ∷ deleted, left, fine)

  unfoldable pub delete_items : Disk → List InventoryItem → Disk
  unfolding delete_item
  delete_items disk [] = disk
  delete_items disk (i ∷ items) = delete_items (delete_item disk i) items

  unfoldable pub evict_by_size : Disk → ℕ → Outcome
  unfolding size_inventory evict_items delete_items
  evict_by_size disk now =
      let items = size_inventory disk in
      let (deleted, left, fine) = evict_items items (total_size items) (out.hourly_file_name now) in
      let after = delete_items disk deleted in
      if leb r.max_bytes 0
      then done disk
      else if out.list_fails (text "current") || out.list_fails recent || out.list_fails archive
      then fail disk
      else if fine
      then record {
        disk = after;
        succeeded = true;
        notified = notify_orphans out r (map (λ i. i.file) deleted);
      }
      else fail after

  -- Every phase runs, whatever the others do; the cycle succeeds if all of them do.
  unfoldable pub run_once : Disk → ℕ → Outcome
  unfolding promote_current_to_recent compress_to_archive purge_expired evict_by_size
  run_once disk now =
      let promoted = promote_current_to_recent out r disk now in
      let compressed = compress_to_archive out r promoted.disk now in
      let purged = purge_expired out r compressed.disk now in
      let evicted = evict_by_size purged.disk now in
      record {
        disk = evicted.disk;
        succeeded =
            promoted.succeeded && compressed.succeeded && purged.succeeded && evicted.succeeded;
        notified = purged.notified ++ evicted.notified;
      }
