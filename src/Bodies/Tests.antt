-- ===== src/Bodies/Tests.antt =====
-- Runs of internal/bodies/rotator.go, and the theorems at concrete inputs.
use smart_proxy.Base.Clean.{lacks}
use smart_proxy.Base.{
  ℕ, ◌≤◌, ◌≡◌, refl, ◌⊎◌, true, false, not, none, List, [], ◌∷◌, ◌++◌, map, arith, ◌==◌, nat_eq,
  text_eq, text_beq, keep, every, some, All,
}
use smart_proxy.Base.Text.{Text, text, has_prefix}
use smart_proxy.Base.Dict.{lookup}
use smart_proxy.Bodies.Rotator.{
  new_codec, Disk, BodyFile, Outside, Rotator, zstd, base_file_name, promote_current_to_recent,
  purge_expired, list_objects, delete_keys, notify_orphans, extension,
}
use smart_proxy.Bodies.Rotator.Eviction.{
  evict_by_size, size_inventory, total_size, InventoryItem, run_once,
}
use smart_proxy.Bodies.Rotator.Budget.{evict_by_size_lem}
use smart_proxy.Bodies.Rotator.Deleted.{Ordered, left_by}
use smart_proxy.Bodies.Rotator.Keeping.{Held, promote_current_to_recent-Held}
use smart_proxy.Bodies.Rotator.Names.{base_file_name_lem, purge_expired_untold}

-- Every call succeeds but for the deletion of one key.
abbrev stuck : Text
stuck = text "archive/10.jsonl.zst"

abbrev outside : Outside
outside = record {
  list_fails = λ place. false;
  put_fails = λ key. false;
  delete_fails = λ key. text_beq key stuck;
  remove_fails = λ name. false;
  compress = λ content. text "z";
  hourly_file_name = λ now. text "12.jsonl";
}

abbrev rotator : Rotator
rotator = record {
  codec = zstd;
  recent_max_age = 5;
  archive_max_age = 50;
  max_bytes = 10;
  notifier = true;
}

abbrev file : ℕ → ℕ → BodyFile
file size mod_time = record { content = text "{}"; size = size; mod_time = mod_time }

-- two hours in the local directory, of which 12 is active, one object under recent/, two under archive/
abbrev disk : Disk
disk = record {
  current = (text "11.jsonl", file 4 95) ∷ (text "12.jsonl", file 9 99) ∷ [];
  backend =
      (text "recent/08.jsonl", file 4 92)
      ∷ (text "archive/07.jsonl.zst", file 2 20)
      ∷ (stuck, file 2 30)
      ∷ [];
}

codecs : (new_codec [] ≡ some zstd) × (new_codec (text "lz4") ≡ none)
unfolding new_codec text_beq
codecs = (refl, refl)

eviction :
    ((evict_by_size outside rotator disk 100).succeeded ≡ false)
    × ((evict_by_size outside (record rotator { max_bytes = 19 }) disk 100).notified
        ≡ text "07.jsonl" ∷ [])
unfolding evict_by_size keep text_beq
eviction = (refl, refl)

cycle :
    (run_once outside (record rotator { archive_max_age = 80; max_bytes = 0 }) disk 100) ≡ record {
      disk = record {
        current = (text "12.jsonl", file 9 99) ∷ [];
        backend =
            (text "archive/08.jsonl.zst", record { content = text "z"; size = 1; mod_time = 100 })
            ∷ (text "recent/11.jsonl", file 4 100)
            ∷ (text "archive/07.jsonl.zst", file 2 20)
            ∷ (stuck, file 2 30)
            ∷ [];
      };
      succeeded = true;
      notified = [];
    }
unfolding run_once keep text_beq
cycle = refl

promote_current_to_recent-Held_example :
    Held (text "11.jsonl") (file 4 95) (promote_current_to_recent outside rotator disk 100).disk
promote_current_to_recent-Held_example =
    promote_current_to_recent-Held outside rotator (text "11.jsonl") (file 4 95) disk 100
      (unfold lookup text_beq in (refl, (refl, tt))) (unfold lookup text_beq in refl)

base_file_name_lem_example :
    (base_file_name (text "recent/11.jsonl") ≡ text "11.jsonl")
    × (base_file_name (text "archive/11.jsonl.zst") ≡ text "11.jsonl")
unfolding extension
base_file_name_lem_example = base_file_name_lem zstd (text "11") (unfold lacks every in refl)

purge_expired_untold_example :
    ((purge_expired outside rotator disk 100).succeeded ≡ false)
    × ((purge_expired outside rotator disk 100).notified ≡ [])
    × (lookup (text "archive/07.jsonl.zst") (purge_expired outside rotator disk 100).disk.backend
        ≡ none)
purge_expired_untold_example =
    purge_expired_untold outside rotator disk 100 (text "archive/07.jsonl.zst") (stuck ∷ []) refl
      (unfold list_objects keep has_prefix in refl) (unfold text_beq in refl)
      (unfold delete_keys text_beq in refl)

abbrev capped : Rotator
capped = record rotator { max_bytes = 19 }

evict_by_size_lem_example :
    ((total_size (size_inventory (evict_by_size outside capped disk 100).disk) ≤ 19)
      ⊎ All
          (λ i. i.file ≡ text "12.jsonl")
          (size_inventory (evict_by_size outside capped disk 100).disk))
    × Ordered (size_inventory disk)
    × (deleted : List InventoryItem) × (kept : List InventoryItem) × (keep
          (λ i. not (i.file == text "12.jsonl"))
          (size_inventory disk)
        ≡ deleted ++ kept)
    × (size_inventory (evict_by_size outside capped disk 100).disk
        ≡ keep (left_by deleted) (size_inventory disk))
    × ((evict_by_size outside capped disk 100).notified
        ≡ notify_orphans outside capped (map (λ i. i.file) deleted))
evict_by_size_lem_example =
    evict_by_size_lem outside capped disk 100 (unfold evict_by_size keep text_beq in refl)
      (omega arith)
