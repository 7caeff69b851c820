-- ===== src/Bodies/Store/Short.antt =====
-- internal/bodies/writer.go: what a write that stops short does to the writes after it.
use smart_proxy.Base.{
  ℕ, ◌+◌, ◌≡◌, refl, ap, ◌∙◌, true, false, not, ◌&&◌, none, some, [], ◌∷◌, ◌++◌, ◌==◌, nat_eq,
  text_eq, length, take, text_beq_refl,
}
use smart_proxy.Base.Text.{Text}
use smart_proxy.Base.Dict.{Dict, lookup, lookup-insert}
use mathlib.Core.List.{append_assoc}
use smart_proxy.Bodies.Rotator.{BodyFile, Disk}
use smart_proxy.Bodies.Store.{
  BodyEntry, StoreOutside, Writer, append_to, rotate_if_needed, write_line, write,
}
use smart_proxy.Bodies.Store.Step.{grown, if-then, if-else}

append_to_lem :
    (d : Dict Text BodyFile) (name bytes : Text) (now : ℕ) (f : BodyFile)
    → lookup name d ≡ some f
    → (g : BodyFile) × (lookup name (append_to d name bytes now) ≡ some g)
      × (g.content ≡ f.content ++ bytes)
unfolding append_to
append_to_lem d name bytes now f found =
    rw (found, append_to)
      (
        grown f bytes now,
        lookup-insert name name (grown f bytes now) d ∙ rw (text_beq_refl name) refl,
        refl,
      )

module _ (out : StoreOutside) where
  no_rotation :
      (disk : Disk) (w : Writer) (now : ℕ)
      → w.opened ≡ true
      → out.hourly_file_name now ≡ w.current_name
      → rotate_if_needed out disk w now ≡ (disk, w, true)
  unfolding rotate_if_needed
  no_rotation disk w now opened hour =
      let here : (out.hourly_file_name now == w.current_name && w.opened) ≡ true =
        rw (hour, opened) (rw (text_beq_refl w.current_name) refl) in
      if-then (out.hourly_file_name now == w.current_name && w.opened) here _ _

  same_hour :
      (disk : Disk) (w : Writer) (e : BodyEntry) (now : ℕ) (json : Text)
      → w.opened ≡ true
      → out.hourly_file_name now ≡ w.current_name
      → out.marshal e ≡ some json
      → write out disk w e now ≡ write_line out disk w (json ++ b'\n' ∷ []) now
  unfolding write
  same_hour disk w e now json opened hour encoded =
      let stays = no_rotation disk w now opened hour in
      let line = json ++ b'\n' ∷ [] in
      let go_on : write out disk w e now
          ≡ write_line out (rotate_if_needed out disk w now).0 (rotate_if_needed out disk w now).1
              line now =
        if-else (not (rotate_if_needed out disk w now).2) (rw stays refl) _ _ ∙ rw encoded refl in
      go_on ∙ ap (λ t. write_line out t.0 t.1 line now) stays

  short_line :
      (disk : Disk) (w : Writer) (line : Text) (now m : ℕ)
      → w.closed ≡ false
      → out.stops_short line ≡ some m
      → write_line out disk w line now ≡ (
        record disk { current = append_to disk.current w.current_name (take m line) now },
        w,
        none,
      )
  unfolding write_line
  short_line disk w line now m usable short = if-else w.closed usable _ _ ∙ rw short refl

  whole_line :
      (disk : Disk) (w : Writer) (line : Text) (now : ℕ)
      → w.closed ≡ false
      → out.stops_short line ≡ none
      → write_line out disk w line now ≡ (
        record disk { current = append_to disk.current w.current_name line now },
        record w { offset = w.offset + length line },
        some (w.current_name, w.offset, length line),
      )
  unfolding write_line
  whole_line disk w line now usable whole = if-else w.closed usable _ _ ∙ rw whole refl

  -- A write that stops short spoils the references after it. Where an open writer knows the end of its
  -- file, a write fails after some bytes, and the next write of the same hour succeeds, the reference
  -- that the latter returns is the old end, while its line stands behind those bytes.
  pub write_short :
      (disk : Disk) (w : Writer) (e e' : BodyEntry) (now now' m : ℕ) (json json' : Text)
      (f : BodyFile)
      → w.opened ≡ true
      → w.closed ≡ false
      → out.hourly_file_name now ≡ w.current_name
      → out.hourly_file_name now' ≡ w.current_name
      → lookup w.current_name disk.current ≡ some f
      → w.offset ≡ length f.content
      → out.marshal e ≡ some json
      → out.marshal e' ≡ some json'
      → out.stops_short (json ++ b'\n' ∷ []) ≡ some m
      → out.stops_short (json' ++ b'\n' ∷ []) ≡ none
      → let first = write out disk w e now in
        let second = write out first.0 first.1 e' now' in
        (first.2 ≡ none)
        × (second.2 ≡ some (w.current_name, length f.content, length (json' ++ b'\n' ∷ [])))
        × (g : BodyFile) × (lookup w.current_name second.0.current ≡ some g)
        × (g.content ≡ f.content ++ (take m (json ++ b'\n' ∷ []) ++ (json' ++ b'\n' ∷ [])))
  write_short disk w e e' now now' m json json' f opened usable hour hour' found ends encoded
        encoded' short whole =
      let line = json ++ b'\n' ∷ [] in
      let line' = json' ++ b'\n' ∷ [] in
      let left = record disk {
        current = append_to disk.current w.current_name (take m line) now;
      } in
      let first : write out disk w e now ≡ (left, w, none) =
        same_hour disk w e now json opened hour encoded
        ∙ short_line disk w line now m usable short in
      let second =
        same_hour left w e' now' json' opened hour' encoded'
        ∙ whole_line left w line' now' usable whole in
      let (g, found', content) =
        append_to_lem disk.current w.current_name (take m line) now f found in
      let (h, found'', content') = append_to_lem left.current w.current_name line' now' g found' in
      rw (first, second)
        (
          refl,
          ap (λ o. some (w.current_name, o, length line')) ends,
          h,
          found'',
          content' ∙ ap (λ t. t ++ line') content ∙ append_assoc f.content (take m line) line',
        )
