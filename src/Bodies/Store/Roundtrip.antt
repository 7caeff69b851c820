-- ===== src/Bodies/Store/Roundtrip.antt =====
-- internal/bodies/store.go: what is written is read again.
use smart_proxy.Base.{
  ℕ, ◌+◌, ◌≤◌, ◌≡◌, refl, sym, ap, subst, ◌∙◌, inl, inr, true, false, none, some, List, [], ◌∷◌,
  ◌++◌, arith, nat_eq, text_eq, Bool-cases, Option-cases, length, take, text_beq_refl, drop,
  length-append, take-append, drop-append,
}
use smart_proxy.Base.Text.{Text}
use smart_proxy.Base.Dict.{Dict, lookup, lookup-insert}
use mathlib.Core.List.{append-nil}
use mathlib.Core.Option.{some-injective}
use smart_proxy.Bodies.Rotator.{BodyFile, Disk}
use smart_proxy.Bodies.Store.{
  BodyEntry, StoreOutside, Writer, entry, append_to, rotate_if_needed, write_line, write,
  read_range, read, decoded, read_direct, is_base,
}
use smart_proxy.Bodies.Store.Step.{InStep, rotate_if_needed-InStep, rotate_if_needed-opened}
use smart_proxy.Bodies.Store.Growth.{
  Grown, Grown-refl, Grown-trans, write-Grown, read_local, read-Grown,
}

-- The bytes lie in the file at the offset.
abbrev Lies : Text → Dict Text BodyFile → Text × ℕ × ℕ → Type 0
Lies line d (file, offset, n) =
    (f : BodyFile) × (lookup file d ≡ some f)
    × (offset + n ≤ length f.content)
    × (take n (drop offset f.content) ≡ line)

Lies-append_to :
    (d : Dict Text BodyFile) (name bytes : Text) (now : ℕ) (f : BodyFile)
    → lookup name d ≡ some f
    → Lies bytes (append_to d name bytes now) (name, length f.content, length bytes)
unfolding append_to
Lies-append_to d name bytes now f found =
    let grown : BodyFile = record {
      content = f.content ++ bytes;
      size = f.size + length bytes;
      mod_time = now;
    } in
    rw (found, append_to)
      (
        grown,
        lookup-insert name name grown d ∙ rw (text_beq_refl name) refl,
        omega (arith, length-append f.content bytes),
        ap (take (length bytes)) (drop-append f.content bytes ∙ sym (append-nil bytes))
            ∙ take-append bytes [],
      )

module _ (out : StoreOutside) where
  write_line-Lies :
      (disk : Disk) (w : Writer) (line : Text) (now : ℕ) (at : Text × ℕ × ℕ)
      → InStep disk w
      → w.opened ≡ true
      → (write_line out disk w line now).2 ≡ some at
      → Lies line (write_line out disk w line now).0.current at
  unfolding write_line
  write_line-Lies disk w line now at i opened h = elim (Bool-cases w.closed) [
    | inl e ↦ let no : none ≡ some at = rw (e, write_line) at h in cc
    | inr e ↦ elim (Option-cases (out.stops_short line)) [
      | inr (m, f) ↦ let no : none ≡ some at = rw (e, f, write_line) at h in cc
      | inl f ↦ elim i.placed [
        | inl g ↦ cc
        | inr (inl g) ↦ cc
        | inr (inr (g, found, ends)) ↦
            let same : (w.current_name, w.offset, length line) ≡ at =
              some-injective (w.current_name, w.offset, length line) at
                (rw (e, f, write_line) at h) in
            let d = append_to disk.current w.current_name line now in
            rw (e, f, write_line)
              (subst (Lies line d) same (
                subst (λ o. Lies line d (w.current_name, o, length line)) (sym ends)
                  (Lies-append_to disk.current w.current_name line now g found)))
      ]
    ]
  ]

  write-Lies :
      (disk : Disk) (w : Writer) (e : BodyEntry) (now : ℕ) (json : Text) (at : Text × ℕ × ℕ)
      → InStep disk w
      → out.marshal e ≡ some json
      → (write out disk w e now).2 ≡ some at
      → Lies (json ++ b'\n' ∷ []) (write out disk w e now).0.current at
  unfolding write
  write-Lies disk w e now json at i encoded h =
      elim (Bool-cases (rotate_if_needed out disk w now).2) [
        | inr x ↦ let no : none ≡ some at = rw (x, write) at h in cc
        | inl x ↦
            rw (x, encoded, write)
              (write_line-Lies _ _ (json ++ b'\n' ∷ []) now at
                (rotate_if_needed-InStep out disk w now i)
                (rotate_if_needed-opened out disk w now x) (rw (x, encoded, write) at h))
      ]

  read_direct_lem :
      (file : Text) (f : BodyFile) (offset n : ℕ) (bytes : Text) (e : BodyEntry)
      → out.read_fails file ≡ false
      → offset + n ≤ length f.content
      → take n (drop offset f.content) ≡ bytes
      → out.unmarshal bytes ≡ some e
      → read_direct out file f offset n ≡ entry e
  unfolding read_direct read_range decoded
  read_direct_lem file f offset n bytes e readable within lies decodes =
      let range : read_range f.content offset n ≡ some bytes = ground (arith, lies) in
      rw (readable, range, read_direct) (rw (decodes, decoded) refl)

  -- any writes after one another
  pub run_writes : Disk → Writer → List (BodyEntry × ℕ) → Disk × Writer
  run_writes disk w [] = (disk, w)
  run_writes disk w ((e, now) ∷ more) =
      let after = write out disk w e now in run_writes after.0 after.1 more

  run_writes-Grown :
      (disk : Disk) (w : Writer) (more : List (BodyEntry × ℕ))
      → Grown disk.current (run_writes disk w more).0.current
  unfolding run_writes
  run_writes-Grown disk w [] = Grown-refl disk.current
  run_writes-Grown disk w ((e, now) ∷ more) =
      Grown-trans disk.current (write out disk w e now).0.current _ (write-Grown out disk w e now)
        (run_writes-Grown (write out disk w e now).0 (write out disk w e now).1 more)

  -- What is written is read again. Where a write to a store whose writer is in step with its files
  -- succeeds, the reference that it returns reads back the entry, right after the write and after any
  -- further writes, whether these succeed, fail, or stop short. JSON reads back what it writes, with a
  -- line break behind it; the name has no slash, and the file can be read.
  pub write-read :
      (disk : Disk) (w : Writer) (e : BodyEntry) (now : ℕ) (json file : Text) (offset n : ℕ)
      (more : List (BodyEntry × ℕ))
      → InStep disk w
      → out.marshal e ≡ some json
      → out.unmarshal (json ++ b'\n' ∷ []) ≡ some e
      → is_base file ≡ true
      → out.read_fails file ≡ false
      → (write out disk w e now).2 ≡ some (file, offset, n)
      → read out
          (run_writes (write out disk w e now).0 (write out disk w e now).1 more).0
          file
          offset
          n
        ≡ entry e
  write-read disk w e now json file offset n more i encoded decodes base readable h =
      let after = (write out disk w e now).0 in
      let (f, found, within, lies) = write-Lies disk w e now json (file, offset, n) i encoded h in
      read-Grown out after _ file f offset n base
        (run_writes-Grown after (write out disk w e now).1 more) found within
      ∙ read_local out after file f offset n base found
      ∙ read_direct_lem file f offset n (json ++ b'\n' ∷ []) e readable within lies decodes
