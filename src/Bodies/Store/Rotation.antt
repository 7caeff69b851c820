-- ===== src/Bodies/Store/Rotation.antt =====
-- internal/bodies: a body is read the same before and after the rotator has promoted its file.
use smart_proxy.Base.{
  ℕ, ◌≡◌, refl, sym, ◌∙◌, ◌⊎◌, inl, inr, true, false, none, some, [], ◌∷◌, ◌++◌, arith, nat_eq,
  text_eq, text_beq, Bool-cases,
}
use smart_proxy.Base.Text.{Text, text}
use smart_proxy.Base.Dict.{Dict, lookup, insert, erase, IsDistinct, lookup-erase}
use smart_proxy.Bodies.Rotator.{
  BodyFile, Disk, Outside, Rotator, stays, promote_files, promote_current_to_recent, recent,
}
use smart_proxy.Bodies.Rotator.Keeping.{promote_current_to_recent-Held}
use smart_proxy.Bodies.Store.{
  BodyEntry, StoreOutside, read, read_range, read_direct, read_backend, read_from_backend_range,
  codec_from_suffix, is_base, decoded, entry,
}
use smart_proxy.Bodies.Store.Growth.{read_local}

module _ (out : Outside) (r : Rotator) (name : Text) where
  -- a promotion leaves a file in the local directory as it is, or removes it
  abbrev Left : Disk → Disk → Type 0
  Left disk disk' =
      (lookup name disk'.current ≡ none) ⊎ (lookup name disk'.current ≡ lookup name disk.current)

  erased-Left :
      (before disk : Disk) (n : Text) (f : BodyFile) (now : ℕ)
      → Left before disk
      → Left before (record disk {
        current = erase n disk.current;
        backend = insert (recent ++ n) (record f { mod_time = now }) disk.backend;
      })
  erased-Left before disk n f now h = elim (Bool-cases (text_beq n name)) [
    | inl same ↦ inl (lookup-erase n name disk.current ∙ rw same refl)
    | inr other ↦
        let kept = lookup-erase n name disk.current ∙ rw other refl in
        elim h [ inl gone ↦ inl (kept ∙ gone) | inr left ↦ inr (kept ∙ left) ]
  ]

  promote_files-Left :
      (entries : Dict Text BodyFile) (active : Text) (now : ℕ) (disk before : Disk)
      → Left before disk
      → Left before (promote_files out r entries active now disk).disk
  unfolding promote_files
  promote_files-Left [] active now disk before h = h
  promote_files-Left ((n, f) ∷ entries) active now disk before h =
      elim (Bool-cases (stays out r active n)) [
        | inl e ↦ rw (e, promote_files) (promote_files-Left entries active now disk before h)
        | inr e ↦ elim (Bool-cases (out.put_fails (recent ++ n))) [
          | inl x ↦ rw (e, x, promote_files) h
          | inr x ↦ elim (Bool-cases (out.remove_fails n)) [
            | inl y ↦ rw (e, x, y, promote_files) h
            | inr y ↦
                rw (e, x, y, promote_files)
                  (promote_files-Left entries active now _ before
                    (erased-Left before disk n f now h))
          ]
        ]
      ]

  promote_current_to_recent-Left :
      (disk : Disk) (now : ℕ) → Left disk (promote_current_to_recent out r disk now).disk
  unfolding promote_current_to_recent
  promote_current_to_recent-Left disk now = elim (Bool-cases (out.list_fails (text "current"))) [
    | inl e ↦ rw (e, promote_current_to_recent) (inr refl)
    | inr e ↦
        rw (e, promote_current_to_recent)
          (promote_files-Left disk.current (out.hourly_file_name now) now disk disk (inr refl))
  ]

module _ (store : StoreOutside) where
  read-recent :
      (disk : Disk) (file : Text) (o : BodyFile) (offset n : ℕ) (e : BodyEntry)
      → is_base file ≡ true
      → codec_from_suffix file ≡ none
      → lookup file disk.current ≡ none
      → lookup (recent ++ file) disk.backend ≡ some o
      → read_direct store (recent ++ file) o offset n ≡ entry e
      → read store disk file offset n ≡ entry e
  unfolding read read_backend read_from_backend_range
  read-recent disk file o offset n e base plain gone found h =
      rw (base, gone, read) (rw (plain, read_backend) (rw (found, h, read_from_backend_range) refl))

  -- A promotion hides no body. What can be read from a file in the local directory is read the same
  -- after the rotator has promoted the files, whether the promotion succeeds or fails, and wherever it
  -- fails. The name has no slash and no compressor's extension, no name stands twice in the directory,
  -- and the copy under recent/ can be read.
  pub read-promote_current_to_recent :
      (out : Outside) (r : Rotator) (disk : Disk) (now : ℕ) (file : Text) (f : BodyFile)
      (offset n : ℕ) (e : BodyEntry)
      → IsDistinct disk.current
      → lookup file disk.current ≡ some f
      → is_base file ≡ true
      → codec_from_suffix file ≡ none
      → store.read_fails file ≡ false
      → store.read_fails (recent ++ file) ≡ false
      → read store disk file offset n ≡ entry e
      → read store (promote_current_to_recent out r disk now).disk file offset n ≡ entry e
  unfolding read_direct
  read-promote_current_to_recent out r disk now file f offset n e w found base plain ok ok' h =
      let disk' = (promote_current_to_recent out r disk now).disk in
      let here : read_direct store file f offset n ≡ entry e =
        sym (read_local store disk file f offset n base found) ∙ h in
      elim (promote_current_to_recent-Left out r file disk now) [
        | inr same ↦ read_local store disk' file f offset n base (same ∙ found) ∙ here
        | inl gone ↦ elim (promote_current_to_recent-Held out r file f disk now w found) [
          | inl still ↦ absurd (ground (arith, gone, still))
          | inr (o, stored, content) ↦
              let decodes : decoded store (read_range f.content offset n) ≡ entry e =
                rw (ok, read_direct) at here in
              read-recent disk' file o offset n e base plain gone stored
                (rw (ok', content, read_direct) decodes)
        ]
      ]
