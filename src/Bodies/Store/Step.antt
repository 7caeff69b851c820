-- ===== src/Bodies/Store/Step.antt =====
-- internal/bodies/writer.go: the writer knows where its file ends, as long as no write stops short.
use smart_proxy.Base.{
  ℕ, ◌+◌, ◌≡◌, refl, subst, ◌∙◌, ◌⊎◌, inl, inr, Bool, true, false, ◌&&◌, none, some, [], ◌∷◌, ◌++◌,
  arith, if◌then◌else◌, ◌==◌, nat_eq, text_eq, text_beq, Bool-cases, Option-cases, length, All,
  text_beq_refl, length-append,
}
use smart_proxy.Base.Text.{Text}
use smart_proxy.Base.Dict.{Dict, lookup, insert, lookup-insert, All-erase}
use mathlib.Core.Option.{some-injective}
use smart_proxy.Bodies.Rotator.{BodyFile, Disk}
use smart_proxy.Bodies.Store.{
  BodyEntry, StoreOutside, Writer, append_to, opened_file, close_writer, rotate_if_needed,
  write_line, write,
}

abbrev pub IsSized : BodyFile → Type 0
IsSized f = f.size ≡ length f.content

-- The sizes of the files are right, and the writer, unless it has no open file, knows where its file
-- ends.
pub record InStep (disk : Disk) (w : Writer) : Type 0 where
  pub sized : All (λ kv. IsSized kv.1) disk.current
  pub placed :
      (w.opened ≡ false)
      ⊎ (w.closed ≡ true)
      ⊎ ((f : BodyFile) × (lookup w.current_name disk.current ≡ some f)
          × (w.offset ≡ length f.content))

lookup-IsSized :
    (d : Dict Text BodyFile) (name : Text) (f : BodyFile)
    → All (λ kv. IsSized kv.1) d
    → lookup name d ≡ some f
    → IsSized f
unfolding lookup
lookup-IsSized [] name f h found = cc
lookup-IsSized ((k, g) ∷ d) name f (here, more) found = elim (Bool-cases (text_beq k name)) [
  | inl e ↦ subst IsSized (some-injective g f (rw e at found)) here
  | inr e ↦ lookup-IsSized d name f more (rw e at found)
]

insert-IsSized :
    (d : Dict Text BodyFile) (name : Text) (f : BodyFile)
    → All (λ kv. IsSized kv.1) d
    → IsSized f
    → All (λ kv. IsSized kv.1) (insert name f d)
unfolding insert
insert-IsSized d name f h here = (here, All-erase (λ kv. IsSized kv.1) name d h)

opened_file-IsSized :
    (d : Dict Text BodyFile) (name : Text) (now : ℕ)
    → All (λ kv. IsSized kv.1) d
    → IsSized (opened_file d name now)
opened_file-IsSized d name now h = elim (Option-cases (lookup name d)) [
  | inl e ↦ rw (e, opened_file) refl
  | inr (f, e) ↦ rw (e, opened_file) (lookup-IsSized d name f h e)
]

closed_placed :
    (disk : Disk) (w : Writer)
    → All (λ kv. IsSized kv.1) disk.current
    → InStep disk (close_writer w)
closed_placed disk w h = elim (Bool-cases w.opened) [
  | inl e ↦ record { sized = h; placed = inr (inl (rw e refl)) }
  | inr e ↦ record { sized = h; placed = inl e }
]

abbrev pub grown : BodyFile → Text → ℕ → BodyFile
grown f bytes now = record {
  content = f.content ++ bytes;
  size = f.size + length bytes;
  mod_time = now;
}

append_to-IsSized :
    (d : Dict Text BodyFile) (name bytes : Text) (now : ℕ)
    → All (λ kv. IsSized kv.1) d
    → All (λ kv. IsSized kv.1) (append_to d name bytes now)
unfolding append_to
append_to-IsSized d name bytes now h = elim (Option-cases (lookup name d)) [
  | inl e ↦ rw (e, append_to) h
  | inr (f, e) ↦
      rw (e, append_to)
        (insert-IsSized d name (grown f bytes now) h
          (omega (arith, lookup-IsSized d name f h e, length-append f.content bytes)))
]

appended-InStep :
    (disk : Disk) (w : Writer) (line : Text) (now : ℕ)
    → InStep disk w
    → w.closed ≡ false
    → InStep
        (record disk { current = append_to disk.current w.current_name line now })
        (record w { offset = w.offset + length line })
unfolding append_to
appended-InStep disk w line now i e = record {
  sized = append_to-IsSized disk.current w.current_name line now i.sized;
  placed = elim i.placed [
    | inl g ↦ inl g
    | inr (inl g) ↦ cc
    | inr (inr (g, found, ends)) ↦ inr (
        inr (
          grown g line now,
          rw (found, append_to)
              (lookup-insert w.current_name w.current_name (grown g line now) disk.current
                ∙ rw (text_beq_refl w.current_name) refl),
          omega (arith, ends, length-append g.content line),
        ))
  ];
}

pub if-else {ℓ} : {A : Type ℓ} (b : Bool) → b ≡ false → (x y : A) → (if b then x else y) ≡ y
if-else b e x y = rw e refl

pub if-then {ℓ} : {A : Type ℓ} (b : Bool) → b ≡ true → (x y : A) → (if b then x else y) ≡ x
if-then b e x y = rw e refl

module _ (out : StoreOutside) where
  pub rotate_if_needed-InStep :
      (disk : Disk) (w : Writer) (now : ℕ)
      → InStep disk w
      → InStep (rotate_if_needed out disk w now).0 (rotate_if_needed out disk w now).1
  unfolding rotate_if_needed
  rotate_if_needed-InStep disk w now i =
      let name = out.hourly_file_name now in
      let file = opened_file disk.current name now in
      let fits = opened_file-IsSized disk.current name now i.sized in
      let there = insert-IsSized disk.current name file i.sized fits in
      elim (Bool-cases (name == w.current_name && w.opened)) [
        | inl e ↦ rw (e, rotate_if_needed) i
        | inr e ↦ elim (Bool-cases (out.open_fails name)) [
          | inl f ↦ rw (e, f, rotate_if_needed) (closed_placed disk w i.sized)
          | inr f ↦ elim (Bool-cases (out.stat_fails name)) [
            | inl g ↦ rw (e, f, g, rotate_if_needed) (closed_placed _ w there)
            | inr g ↦
                rw (e, f, g, rotate_if_needed)
                  (record {
                    sized = there;
                    placed = inr (
                        inr (
                          file,
                          lookup-insert name name file disk.current ∙ rw (text_beq_refl name) refl,
                          fits,
                        ));
                  })
          ]
        ]
      ]

  pub rotate_if_needed-opened :
      (disk : Disk) (w : Writer) (now : ℕ)
      → (rotate_if_needed out disk w now).2 ≡ true
      → (rotate_if_needed out disk w now).1.opened ≡ true
  unfolding rotate_if_needed
  rotate_if_needed-opened disk w now h =
      let name = out.hourly_file_name now in
      elim (Bool-cases (name == w.current_name && w.opened)) [
        | inl e ↦ rw (e, rotate_if_needed) (ground (arith, e))
        | inr e ↦ elim (Bool-cases (out.open_fails name)) [
          | inl f ↦ let no : false ≡ true = rw (e, f, rotate_if_needed) at h in cc
          | inr f ↦ elim (Bool-cases (out.stat_fails name)) [
            | inl g ↦ let no : false ≡ true = rw (e, f, g, rotate_if_needed) at h in cc
            | inr g ↦ rw (e, f, g, rotate_if_needed) refl
          ]
        ]
      ]

  write_line-InStep :
      (disk : Disk) (w : Writer) (line : Text) (now : ℕ)
      → InStep disk w
      → out.stops_short line ≡ none
      → InStep (write_line out disk w line now).0 (write_line out disk w line now).1
  unfolding write_line
  write_line-InStep disk w line now i whole = elim (Bool-cases w.closed) [
    | inl e ↦ simp (e, write_line) i
    | inr e ↦
        let written : write_line out disk w line now ≡ (
          record disk { current = append_to disk.current w.current_name line now },
          record w { offset = w.offset + length line },
          some (w.current_name, w.offset, length line),
        ) =
          if-else w.closed e _ _ ∙ rw whole refl in
        rw written (appended-InStep disk w line now i e)
  ]

  -- The writer stays in step, whether the write succeeds or fails, where no write stops short.
  pub write-InStep :
      (disk : Disk) (w : Writer) (e : BodyEntry) (now : ℕ)
      → InStep disk w
      → ((line : Text) → out.stops_short line ≡ none)
      → InStep (write out disk w e now).0 (write out disk w e now).1
  unfolding write
  write-InStep disk w e now i whole =
      let rotated = rotate_if_needed-InStep disk w now i in
      elim (Bool-cases (rotate_if_needed out disk w now).2) [
        | inr x ↦ simp (x, write) rotated
        | inl x ↦ elim (Option-cases (out.marshal e)) [
          | inl y ↦ simp (x, y, write) rotated
          | inr (json, y) ↦
              simp (x, y, write) (write_line-InStep _ _ (json ++ b'\n' ∷ []) now rotated (whole _))
        ]
      ]
