-- ===== src/Bodies/Rotator/Names.antt =====
-- internal/bodies/rotator.go: the names under which the store's objects are known to the metadata.
use smart_proxy.Base.{
  take-append, ℕ, ◌-◌, ◌≡◌, refl, ap, ◌∙◌, inl, inr, true, false, none, List, [], ◌∷◌, ◌++◌, arith,
  ltb, if◌then◌else◌, ◌==◌, nat_eq, text_eq, Bool-cases, length, keep, any, take, every,
  length-append, text_beq_refl,
}
use smart_proxy.Base.Text.{Text, text, has_prefix, has_suffix, has_prefix-append}
use smart_proxy.Base.Dict.{Dict, lookup, erase, lookup-erase}
use smart_proxy.Bodies.Rotator.{
  Disk, BodyFile, Outside, Rotator, Codec, zstd, gzip, uncompressed, extension, recent, archive,
  jsonl, base_file_name, after_last_slash, delete_keys, purge_expired, keys_of, list_objects,
  trim_suffix,
}
use smart_proxy.Base.Clean.{lacks, lacks-append}
use mathlib.Core.List.{append-nil, reverse, reverse-append}

lacks-any : (s : Text) → lacks b'/' s ≡ true → any (λ d. d == b'/') s ≡ false
unfolding lacks every any
lacks-any [] h = refl
lacks-any (c ∷ s) h = ground (arith, lacks-any s)

after_recent : (s : Text) → lacks b'/' s ≡ true → after_last_slash (recent ++ s) ≡ s
unfolding after_last_slash any
after_recent s h = rw (lacks-any s h, after_last_slash) refl

after_archive : (s : Text) → lacks b'/' s ≡ true → after_last_slash (archive ++ s) ≡ s
unfolding after_last_slash any
after_archive s h = rw (lacks-any s h, after_last_slash) refl

has_suffix-append : (s p : Text) → has_suffix (s ++ p) p ≡ true
unfolding has_suffix
has_suffix-append s p = rw (reverse-append s p) (has_prefix-append (reverse p) (reverse s))

cut_suffix : (s p : Text) → take (length (s ++ p) - length p) (s ++ p) ≡ s
cut_suffix s p =
    let left : length (s ++ p) - length p ≡ length s = omega (arith, length-append s p) in
    ap (λ n. take n (s ++ p)) left ∙ take-append s p

-- the name without the extension of a compressor
abbrev stem_of : Text → Text
stem_of name =
    if has_suffix name (text ".zst")
    then trim_suffix name (text ".zst")
    else if has_suffix name (text ".gz")
    then trim_suffix name (text ".gz")
    else name

base_of : (key name : Text) → after_last_slash key ≡ name → base_file_name key ≡ stem_of name
unfolding base_file_name
base_of key name e = ap stem_of e

gz-zst : (s : Text) → has_suffix (s ++ text ".gz") (text ".zst") ≡ false
unfolding has_suffix has_prefix
gz-zst s = rw (reverse-append s (text ".gz")) refl

plain-zst : (s : Text) → has_suffix (s ++ jsonl) (text ".zst") ≡ false
unfolding has_suffix has_prefix
plain-zst s = rw (reverse-append s jsonl) refl

plain-gz : (s : Text) → has_suffix (s ++ jsonl) (text ".gz") ≡ false
unfolding has_suffix has_prefix
plain-gz s = rw (reverse-append s jsonl) refl

stem_of-plain : (s : Text) → stem_of (s ++ jsonl) ≡ s ++ jsonl
stem_of-plain s = rw (plain-zst s, plain-gz s) refl

stem_of-extension :
    (codec : Codec) (s : Text) → stem_of ((s ++ jsonl) ++ extension codec) ≡ s ++ jsonl
unfolding extension
stem_of-extension zstd s =
    rw (has_suffix-append (s ++ jsonl) (text ".zst")) (cut_suffix (s ++ jsonl) (text ".zst"))
stem_of-extension gzip s =
    rw (gz-zst (s ++ jsonl), has_suffix-append (s ++ jsonl) (text ".gz"))
      (cut_suffix (s ++ jsonl) (text ".gz"))
stem_of-extension uncompressed s = rw (append-nil (s ++ jsonl)) (stem_of-plain s)

lacks-extension : (codec : Codec) → lacks b'/' (extension codec) ≡ true
unfolding extension lacks every
lacks-extension zstd = refl
lacks-extension gzip = refl
lacks-extension uncompressed = refl

-- The metadata knows a body by the name of its hourly file, and the rotator finds this name again from
-- the key of the object in either tier, whatever the compression. The name has no slash.
pub base_file_name_lem :
    (codec : Codec) (stem : Text)
    → lacks b'/' stem ≡ true
    → (base_file_name (recent ++ (stem ++ jsonl)) ≡ stem ++ jsonl)
      × (base_file_name (archive ++ ((stem ++ jsonl) ++ extension codec)) ≡ stem ++ jsonl)
base_file_name_lem codec stem h =
    let named : lacks b'/' (stem ++ jsonl) ≡ true =
      lacks-append b'/' stem jsonl h (unfold lacks every in refl) in
    let packed : lacks b'/' ((stem ++ jsonl) ++ extension codec) ≡ true =
      lacks-append b'/' (stem ++ jsonl) (extension codec) named (lacks-extension codec) in
    (
      base_of (recent ++ (stem ++ jsonl)) (stem ++ jsonl) (after_recent (stem ++ jsonl) named)
          ∙ stem_of-plain stem,
      base_of (archive ++ ((stem ++ jsonl) ++ extension codec)) ((stem ++ jsonl) ++ extension codec)
            (after_archive ((stem ++ jsonl) ++ extension codec) packed)
          ∙ stem_of-extension codec stem,
    )

delete_keys_gone :
    (out : Outside) (r : Rotator) (ks : List Text) (d : Dict Text BodyFile) (k : Text)
    → lookup k d ≡ none
    → lookup k (delete_keys out r ks d).0 ≡ none
unfolding delete_keys
delete_keys_gone out r [] d k h = h
delete_keys_gone out r (j ∷ ks) d k h = elim (Bool-cases (out.delete_fails j)) [
  | inl e ↦ rw (e, delete_keys) h
  | inr e ↦
      rw (e, delete_keys)
        (delete_keys_gone out r ks (erase j d) k (ground (arith, lookup-erase j k d)))
]

-- A purge that fails midway leaves names in the metadata for which there is no file: where the listing
-- succeeds, the first expired object can be deleted and a later one cannot, the purge fails, the first
-- is gone, and the notifier is told of none.
pub purge_expired_untold :
    (out : Outside) (r : Rotator) (disk : Disk) (now : ℕ) (k : Text) (ks : List Text)
    → out.list_fails archive ≡ false
    → keys_of out r (
        keep
          (λ kv. ltb kv.1.mod_time (now - r.archive_max_age))
          (list_objects archive disk.backend))
      ≡ k ∷ ks
    → out.delete_fails k ≡ false
    → (delete_keys out r (k ∷ ks) disk.backend).1 ≡ false
    → ((purge_expired out r disk now).succeeded ≡ false)
      × ((purge_expired out r disk now).notified ≡ [])
      × (lookup k (purge_expired out r disk now).disk.backend ≡ none)
unfolding purge_expired
purge_expired_untold out r disk now k ks listed expired deletes fails =
    let gone : lookup k (delete_keys out r (k ∷ ks) disk.backend).0 ≡ none =
      unfold delete_keys in
      rw (deletes, delete_keys)
        (delete_keys_gone out r ks (erase k disk.backend) k
          (lookup-erase k k disk.backend ∙ rw (text_beq_refl k) refl)) in
    rw (listed, expired, fails, purge_expired) (refl, refl, gone)
