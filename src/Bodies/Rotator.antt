-- ===== src/Bodies/Rotator.antt =====
-- internal/bodies/rotator.go: hourly files move from the local directory to the tiers recent/ and
-- archive/ of an object store, and the oldest go where they are too many. A directory and a store are
-- maps by name and by key. `Outside` says which calls on them fail (a call that fails changes nothing but for a deletion of several keys),
-- what the compressor makes of a file, and what the active file of an hour is called. Sizes are
-- bytes, and those of a cycle add up to less than 2^63. Times are nanoseconds since the epoch.
pub mod Eviction
pub mod Budget
pub mod Deleted
pub mod Keeping
pub mod Names
use smart_proxy.Base.{
  ℕ, ◌-◌, Bool, true, false, not, ◌||◌, Option, none, some, List, [], ◌∷◌, ◌++◌, map, ltb,
  if◌then◌else◌, ◌==◌, nat_eq, text_eq, text_beq, length, keep, any, drop, take,
}
use smart_proxy.Base.Text.{Text, text, has_prefix, has_suffix}
use smart_proxy.Base.Dict.{Dict, insert, erase}

pub record BodyFile : Type 0 where
  pub content : Text
  pub size : ℕ
  pub mod_time : ℕ

pub data Codec : Type 0 where
  zstd gzip uncompressed : Codec

unfoldable pub extension : Codec → Text
extension zstd = text ".zst"
extension gzip = text ".gz"
extension uncompressed = []

-- NewCodec; `none` is the error
unfoldable pub new_codec : Text → Option Codec
unfolding text_beq
new_codec name =
    if name == [] || name == text "zstd"
    then some zstd
    else if name == text "gzip"
    then some gzip
    else if name == text "none"
    then some uncompressed
    else none

pub record Outside : Type 0 where
  pub list_fails : Text → Bool
  pub put_fails : Text → Bool
  pub delete_fails : Text → Bool
  pub remove_fails : Text → Bool
  pub compress : Text → Text
  pub hourly_file_name : ℕ → Text

-- `notifier` is whether there is one; what it is told is part of a phase's result.
pub record Rotator : Type 0 where
  pub codec : Codec
  pub recent_max_age : ℕ
  pub archive_max_age : ℕ
  pub max_bytes : ℕ
  pub notifier : Bool

-- Directories beneath the local one are not in `current`.
pub record Disk : Type 0 where
  pub current : Dict Text BodyFile
  pub backend : Dict Text BodyFile

-- The disk after a phase, whether it succeeded, and the names that the notifier was told.
pub record Outcome : Type 0 where
  pub disk : Disk
  pub succeeded : Bool
  pub notified : List Text

abbrev pub recent : Text
recent = text "recent/"

abbrev pub archive : Text
archive = text "archive/"

abbrev pub jsonl : Text
jsonl = text ".jsonl"

-- the objects under a prefix, in the order of the map
unfoldable pub list_objects : Text → Dict Text BodyFile → Dict Text BodyFile
unfolding has_prefix
list_objects prefix d = keep (λ kv. has_prefix kv.0 prefix) d

-- strings.TrimPrefix and strings.TrimSuffix
abbrev pub trim_prefix : Text → Text → Text
trim_prefix s p = if has_prefix s p then drop (length p) s else s

abbrev pub trim_suffix : Text → Text → Text
trim_suffix s p = if has_suffix s p then take (length s - length p) s else s

-- what follows the last slash, or all of it
unfoldable pub after_last_slash : Text → Text
after_last_slash [] = []
after_last_slash (c ∷ s) =
    if any (λ d. d == b'/') s then after_last_slash s else if c == b'/' then s else c ∷ s

unfoldable pub base_file_name : Text → Text
unfolding after_last_slash has_suffix any
base_file_name key =
    let name = after_last_slash key in
    if has_suffix name (text ".zst")
    then trim_suffix name (text ".zst")
    else if has_suffix name (text ".gz")
    then trim_suffix name (text ".gz")
    else name

abbrev pub fail : Disk → Outcome
fail disk = record { disk = disk; succeeded = false; notified = [] }

abbrev pub done : Disk → Outcome
done disk = record { disk = disk; succeeded = true; notified = [] }

module _ (out : Outside) (r : Rotator) where
  abbrev pub notify_orphans : List Text → List Text
  notify_orphans files = if r.notifier then files else []

  abbrev pub stays : Text → Text → Bool
  stays active name = name == active || not (has_suffix name jsonl)

  -- the loop of promoteCurrentToRecent over the entries of the directory
  unfoldable pub promote_files : Dict Text BodyFile → Text → ℕ → Disk → Outcome
  unfolding has_suffix insert erase
  promote_files [] active now disk = done disk
  promote_files ((name, file) ∷ entries) active now disk =
      let key = recent ++ name in
      let copied = record disk {
        backend = insert key (record file { mod_time = now }) disk.backend;
      } in
      let moved = record copied { current = erase name disk.current } in
      let skipped = promote_files entries active now disk in
      let next = promote_files entries active now moved in
      if stays active name
      then skipped
      else if out.put_fails key
      then fail disk
      else if out.remove_fails name
      then fail copied
      else next

  unfoldable pub promote_current_to_recent : Disk → ℕ → Outcome
  unfolding promote_files
  promote_current_to_recent disk now =
      if out.list_fails (text "current")
      then fail disk
      else promote_files disk.current (out.hourly_file_name now) now disk

  -- the loop of compressToArchive over the objects under recent/
  compress_objects : Dict Text BodyFile → ℕ → Disk → Outcome
  unfolding has_suffix insert erase extension
  compress_objects [] now disk = done disk
  compress_objects ((key, file) ∷ objects) now disk =
      let archive_key = archive ++ (trim_prefix key recent ++ extension r.codec) in
      let packed = out.compress file.content in
      let stored : BodyFile = record { content = packed; size = length packed; mod_time = now } in
      let copied = record disk { backend = insert archive_key stored disk.backend } in
      let moved = record copied { backend = erase key copied.backend } in
      let skipped = compress_objects objects now disk in
      let next = compress_objects objects now moved in
      if not (has_suffix key jsonl) || ltb (now - r.recent_max_age) file.mod_time
      then skipped
      else if out.put_fails archive_key
      then fail disk
      else if out.delete_fails key
      then fail copied
      else next

  unfoldable pub compress_to_archive : Disk → ℕ → Outcome
  unfolding compress_objects list_objects
  compress_to_archive disk now =
      if out.list_fails recent
      then fail disk
      else compress_objects (list_objects recent disk.backend) now disk

  abbrev pub keys_of : Dict Text BodyFile → List Text
  keys_of d = map (λ kv. kv.0) d

  -- Delete of the local backend (internal/blob/local.go): key by key, up to one that fails
  unfoldable pub delete_keys : List Text → Dict Text BodyFile → Dict Text BodyFile × Bool
  unfolding erase
  delete_keys [] d = (d, true)
  delete_keys (k ∷ ks) d =
      let rest = delete_keys ks (erase k d) in if out.delete_fails k then (d, false) else rest

  unfoldable pub purge_expired : Disk → ℕ → Outcome
  unfolding list_objects delete_keys base_file_name
  purge_expired disk now =
      let expired = keys_of (
        keep (λ kv. ltb kv.1.mod_time (now - r.archive_max_age))
          (list_objects archive disk.backend)) in
      let (backend, deleted) = delete_keys expired disk.backend in
      let after = record disk { backend = backend } in
      if out.list_fails archive
      then fail disk
      else if deleted
      then record {
        disk = after;
        succeeded = true;
        notified = notify_orphans (map base_file_name expired);
      }
      else fail after
