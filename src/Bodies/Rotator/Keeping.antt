-- ===== src/Bodies/Rotator/Keeping.antt =====
-- internal/bodies/rotator.go: no body is lost on its way to the store, and its name is found again.
use smart_proxy.Base.{
  ℕ, ◌≡◌, refl, ap, ◌∙◌, ◌⊎◌, inl, inr, true, false, none, some, [], ◌∷◌, ◌++◌, arith, nat_eq,
  text_eq, text_beq, text_beq_iff, Bool-cases, All,
}
use smart_proxy.Base.Text.{Text, text}
use smart_proxy.Base.Dict.{Dict, lookup, insert, erase, IsDistinct, lookup-insert, lookup-erase}
use smart_proxy.Bodies.Rotator.{
  Disk, BodyFile, Outside, Rotator, stays, promote_files, promote_current_to_recent, recent,
}

same_key : (n name : Text) → text_beq (recent ++ n) (recent ++ name) ≡ text_beq n name
unfolding text_beq
same_key n name = refl

-- the body of a file is in the local directory, or under recent/
abbrev pub Held : Text → BodyFile → Disk → Type 0
Held name file disk =
    (lookup name disk.current ≡ some file)
    ⊎ ((o : BodyFile) × (lookup (recent ++ name) disk.backend ≡ some o)
        × (o.content ≡ file.content))

abbrev put : Disk → Text → BodyFile → ℕ → Disk
put disk n f now = record disk {
  backend = insert (recent ++ n) (record f { mod_time = now }) disk.backend;
}

abbrev moved : Disk → Text → BodyFile → ℕ → Disk
moved disk n f now = record (put disk n f now) { current = erase n disk.current }

module _ (name : Text) (file : BodyFile) (n : Text) (f : BodyFile) (now : ℕ) (disk : Disk)
    (same : n ≡ name → f ≡ file) (h : Held name file disk) where
  put-same :
      text_beq n name ≡ true
      → (o : BodyFile) × (lookup (recent ++ name) (put disk n f now).backend ≡ some o)
        × (o.content ≡ file.content)
  put-same e =
      let named : n ≡ name = (text_beq_iff n name).0 e in
      (
        record f { mod_time = now },
        lookup-insert (recent ++ n) (recent ++ name) (record f { mod_time = now }) disk.backend
            ∙ rw (same_key n name, e) refl,
        ap (λ g. g.content) (same named),
      )

  put-other :
      text_beq n name ≡ false
      → lookup (recent ++ name) (put disk n f now).backend ≡ lookup (recent ++ name) disk.backend
  put-other e =
      lookup-insert (recent ++ n) (recent ++ name) (record f { mod_time = now }) disk.backend
      ∙ rw (same_key n name, e) refl

  put-Held : Held name file (put disk n f now)
  put-Held = elim (Bool-cases (text_beq n name)) [
    | inl e ↦ inr (put-same e)
    | inr e ↦ elim h [
      | inl here ↦ inl here
      | inr (o, found, content) ↦ inr (o, put-other e ∙ found, content)
    ]
  ]

  moved-Held : Held name file (moved disk n f now)
  moved-Held = elim (Bool-cases (text_beq n name)) [
    | inl e ↦ inr (put-same e)
    | inr e ↦ elim h [
      | inl here ↦ inl (lookup-erase n name disk.current ∙ rw e here)
      | inr (o, found, content) ↦ inr (o, put-other e ∙ found, content)
    ]
  ]

module _ (out : Outside) (r : Rotator) (name : Text) (file : BodyFile) where
  promote_files-Held :
      (entries : Dict Text BodyFile) (active : Text) (now : ℕ) (disk : Disk)
      → All (λ kv. kv.0 ≡ name → kv.1 ≡ file) entries
      → Held name file disk
      → Held name file (promote_files out r entries active now disk).disk
  unfolding promote_files
  promote_files-Held [] active now disk same h = h
  promote_files-Held ((n, f) ∷ entries) active now disk (here, more) h =
      let copied = put-Held name file n f now disk here h in
      let gone = moved-Held name file n f now disk here h in
      elim (Bool-cases (stays out r active n)) [
        | inl e ↦ rw (e, promote_files) (promote_files-Held entries active now disk more h)
        | inr e ↦ elim (Bool-cases (out.put_fails (recent ++ n))) [
          | inl p ↦ rw (e, p, promote_files) h
          | inr p ↦ elim (Bool-cases (out.remove_fails n)) [
            | inl q ↦ rw (e, p, q, promote_files) copied
            | inr q ↦
                rw (e, p, q, promote_files)
                  (promote_files-Held entries active now (moved disk n f now) more gone)
          ]
        ]
      ]

  absent-same :
      (d : Dict Text BodyFile) → lookup name d ≡ none → All (λ kv. kv.0 ≡ name → kv.1 ≡ file) d
  unfolding lookup
  absent-same [] h = tt
  absent-same ((k, v) ∷ d) h = (
    λ eq. absurd (ground (arith, text_beq_iff k name)),
    absent-same d (ground (arith, text_beq_iff k name)),
  )

  distinct-same :
      (d : Dict Text BodyFile)
      → IsDistinct d
      → lookup name d ≡ some file
      → All (λ kv. kv.0 ≡ name → kv.1 ≡ file) d
  unfolding lookup
  distinct-same [] w h = tt
  distinct-same ((k, v) ∷ d) (fresh, w) h = elim (Bool-cases (text_beq k name)) [
    | inl e ↦ (λ eq. ground arith, absent-same d (rw (← (text_beq_iff k name).0 e) fresh))
    | inr e ↦ (λ eq. ground (arith, text_beq_iff k name), distinct-same d w (ground arith))
  ]

  -- A promotion loses no body, whether it succeeds or fails, and wherever it fails: a file that was in
  -- the local directory is still there, or its contents are in the store under its name. No name stands
  -- twice in the directory.
  pub promote_current_to_recent-Held :
      (disk : Disk) (now : ℕ)
      → IsDistinct disk.current
      → lookup name disk.current ≡ some file
      → Held name file (promote_current_to_recent out r disk now).disk
  unfolding promote_current_to_recent
  promote_current_to_recent-Held disk now w h =
      elim (Bool-cases (out.list_fails (text "current"))) [
        | inl e ↦ rw (e, promote_current_to_recent) (inl h)
        | inr e ↦
            rw (e, promote_current_to_recent)
              (promote_files-Held disk.current (out.hourly_file_name now) now disk
                (distinct-same disk.current w h) (inl h))
      ]
