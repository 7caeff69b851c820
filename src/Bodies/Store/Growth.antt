-- ===== src/Bodies/Store/Growth.antt =====
-- internal/bodies/writer.go: writes only append, so what a file had stays where it was.
use smart_proxy.Base.{
  ℕ, ◌+◌, ◌≤◌, ◌≡◌, refl, sym, ap, ◌∙◌, inl, inr, true, ◌&&◌, some, [], ◌∷◌, ◌++◌, arith, ◌==◌,
  nat_eq, text_eq, text_beq, text_beq_iff, Bool-cases, Option-cases, length, take, length-append,
  take-drop-append,
}
use smart_proxy.Base.Text.{Text}
use smart_proxy.Base.Dict.{Dict, lookup, insert, lookup-insert}
use mathlib.Core.List.{append-nil, append_assoc}
use mathlib.Core.Option.{some-injective}
use smart_proxy.Bodies.Rotator.{BodyFile, Disk}
use smart_proxy.Bodies.Store.{
  BodyEntry, StoreOutside, Writer, append_to, opened_file, rotate_if_needed, write_line, write,
  read_range, read, read_direct, is_base,
}

-- Every file of `d` is in `d'`, with more at its end or nothing more.
abbrev pub Grown : Dict Text BodyFile → Dict Text BodyFile → Type 0
Grown d d' =
    (name : Text) (f : BodyFile)
    → lookup name d ≡ some f
    → (f' : BodyFile) × (more : Text) × (lookup name d' ≡ some f')
      × (f'.content ≡ f.content ++ more)

pub Grown-refl : (d : Dict Text BodyFile) → Grown d d
Grown-refl d name f h = (f, [], h, sym (append-nil f.content))

pub Grown-trans : (a b c : Dict Text BodyFile) → Grown a b → Grown b c → Grown a c
Grown-trans a b c g h name f found =
    let (f', more, found', longer) = g name f found in
    let (f'', more', found'', longer') = h name f' found' in
    (
      f'',
      more ++ more',
      found'',
      longer' ∙ ap (λ t. t ++ more') longer ∙ append_assoc f.content more more',
    )

-- a file put in place of one that it goes on from
Grown-insert :
    (d : Dict Text BodyFile) (name : Text) (g : BodyFile)
    → ((f : BodyFile) → lookup name d ≡ some f → (more : Text) × (g.content ≡ f.content ++ more))
    → Grown d (insert name g d)
Grown-insert d name g grows k f found = elim (Bool-cases (text_beq name k)) [
  | inl same ↦
      let (more, longer) = grows f (rw ((text_beq_iff name k).0 same) found) in
      (g, more, lookup-insert name k g d ∙ rw same refl, longer)
  | inr other ↦ (f, [], lookup-insert name k g d ∙ rw other found, sym (append-nil f.content))
]

Grown-append_to :
    (d : Dict Text BodyFile) (name bytes : Text) (now : ℕ) → Grown d (append_to d name bytes now)
unfolding append_to
Grown-append_to d name bytes now = elim (Option-cases (lookup name d)) [
  | inl e ↦ rw (e, append_to) (Grown-refl d)
  | inr (f, e) ↦
      rw (e, append_to)
        (Grown-insert d name _
          (λ g found. (bytes, ap (λ h. h.content ++ bytes) (some-injective f g (sym e ∙ found)))))
]

Grown-opened :
    (d : Dict Text BodyFile) (name : Text) (now : ℕ)
    → Grown d (insert name (opened_file d name now) d)
Grown-opened d name now =
    Grown-insert d name _ (λ f found. ([], rw (found, opened_file) (sym (append-nil f.content))))

module _ (out : StoreOutside) where
  rotate_if_needed-Grown :
      (disk : Disk) (w : Writer) (now : ℕ)
      → Grown disk.current (rotate_if_needed out disk w now).0.current
  unfolding rotate_if_needed
  rotate_if_needed-Grown disk w now =
      let name = out.hourly_file_name now in
      elim (Bool-cases (name == w.current_name && w.opened)) [
        | inl e ↦ rw (e, rotate_if_needed) (Grown-refl disk.current)
        | inr e ↦ elim (Bool-cases (out.open_fails name)) [
          | inl f ↦ rw (e, f, rotate_if_needed) (Grown-refl disk.current)
          | inr f ↦ elim (Bool-cases (out.stat_fails name)) [
            | inl g ↦ rw (e, f, g, rotate_if_needed) (Grown-opened disk.current name now)
            | inr g ↦ rw (e, f, g, rotate_if_needed) (Grown-opened disk.current name now)
          ]
        ]
      ]

  write_line-Grown :
      (disk : Disk) (w : Writer) (line : Text) (now : ℕ)
      → Grown disk.current (write_line out disk w line now).0.current
  unfolding write_line
  write_line-Grown disk w line now = elim (Bool-cases w.closed) [
    | inl e ↦ rw (e, write_line) (Grown-refl disk.current)
    | inr e ↦ elim (Option-cases (out.stops_short line)) [
      | inl f ↦ rw (e, f, write_line) (Grown-append_to disk.current w.current_name line now)
      | inr (n, f) ↦
          rw (e, f, write_line) (Grown-append_to disk.current w.current_name (take n line) now)
    ]
  ]

  pub write-Grown :
      (disk : Disk) (w : Writer) (e : BodyEntry) (now : ℕ)
      → Grown disk.current (write out disk w e now).0.current
  unfolding write
  write-Grown disk w e now =
      let rotated = rotate_if_needed-Grown disk w now in
      let disk' = (rotate_if_needed out disk w now).0 in
      let w' = (rotate_if_needed out disk w now).1 in
      elim (Bool-cases (rotate_if_needed out disk w now).2) [
        | inr x ↦ rw (x, write) rotated
        | inl x ↦ elim (Option-cases (out.marshal e)) [
          | inl y ↦ rw (x, y, write) rotated
          | inr (json, y) ↦
              rw (x, y, write)
                (Grown-trans disk.current disk'.current _ rotated
                  (write_line-Grown disk' w' (json ++ b'\n' ∷ []) now))
        ]
      ]

  pub read_local :
      (disk : Disk) (file : Text) (f : BodyFile) (offset n : ℕ)
      → is_base file ≡ true
      → lookup file disk.current ≡ some f
      → read out disk file offset n ≡ read_direct out file f offset n
  unfolding read
  read_local disk file f offset n x found = rw (x, found, read) refl

  -- what is read in the local directory is the same after it has grown
  pub read-Grown :
      (disk disk' : Disk) (file : Text) (f : BodyFile) (offset n : ℕ)
      → is_base file ≡ true
      → Grown disk.current disk'.current
      → lookup file disk.current ≡ some f
      → offset + n ≤ length f.content
      → read out disk' file offset n ≡ read out disk file offset n
  unfolding read_direct read_range
  read-Grown disk disk' file f offset n x grown found within =
      let (f', more, found', longer) = grown file f found in
      let same : read_range f'.content offset n ≡ read_range f.content offset n =
        rw longer (
          ground (arith, take-drop-append offset n f.content more, length-append f.content more)) in
      read_local disk' file f' offset n x found'
      ∙ rw (same, read_direct) refl
      ∙ sym (read_local disk file f offset n x found)
