-- ===== src/Bodies/Store.antt =====
-- internal/bodies/writer.go, reader.go and store.go: body entries as lines of hourly files, and where they are
-- found again. The files are those of the rotator (Rotator has the disk). `StoreOutside` is the codec of
-- JSON, the decompressors, the name of an hour's file, and which calls fail: of a write, it says at how
-- many bytes it stops short, if it does. The local
-- file that os.Stat does not find is not there.

pub mod Growth
pub mod Step
pub mod Short
pub mod Roundtrip
pub mod Rotation
use smart_proxy.Base.{
  ℕ, ◌+◌, Bool, true, false, not, ◌&&◌, ◌||◌, Option, none, some, List, [], ◌∷◌, ◌++◌, leb,
  if◌then◌else◌, ◌==◌, nat_eq, text_eq, text_beq, length, take, drop, any,
}
use smart_proxy.Base.Text.{Text, text, has_suffix}
use smart_proxy.Base.Dict.{Dict, lookup, insert}
use smart_proxy.Bodies.Rotator.{BodyFile, Codec, zstd, gzip, Disk, recent, archive}

pub record BodyEntry : Type 0 where
  pub id : Text
  pub request_headers : Dict Text Text
  pub response_headers : Dict Text Text
  pub request_body : Text
  pub response_body : Text

pub record StoreOutside : Type 0 where
  pub marshal : BodyEntry → Option Text
  pub unmarshal : Text → Option BodyEntry
  pub decompress : Codec → Text → Option Text
  pub hourly_file_name : ℕ → Text
  pub open_fails : Text → Bool
  pub stat_fails : Text → Bool
  pub stops_short : Text → Option ℕ
  pub read_fails : Text → Bool

-- `opened` is whether there is a file at all, `closed` whether it has been closed.
pub record Writer : Type 0 where
  pub opened : Bool
  pub closed : Bool
  pub current_name : Text
  pub offset : ℕ

abbrev pub new_writer : Writer
new_writer = record { opened = false; closed = false; current_name = []; offset = 0 }

abbrev pub close_writer : Writer → Writer
close_writer w = record w { closed = w.opened || w.closed }

-- a write of the first `n` bytes at the end; a file that is gone takes them with it
unfoldable pub append_to : Dict Text BodyFile → Text → Text → ℕ → Dict Text BodyFile
append_to d name bytes now = elim (lookup name d) [
  | none ↦ d
  | some f ↦
      let grown : BodyFile = record {
        content = f.content ++ bytes;
        size = f.size + length bytes;
        mod_time = now;
      } in
      insert name grown d
]

abbrev pub empty_file : ℕ → BodyFile
empty_file now = record { content = []; size = 0; mod_time = now }

-- the file that os.OpenFile opens: the one that is there, or a new one
abbrev pub opened_file : Dict Text BodyFile → Text → ℕ → BodyFile
opened_file d name now = elim (lookup name d) [ none ↦ empty_file now | some f ↦ f ]

-- what a read finds; `not_found` is blob.ErrNotFound
pub data Got : Type 0 where
  entry : BodyEntry → Got
  not_found : Got
  failed : Got

-- ReadAt, or a reader of a range with io.ReadFull: an empty range is never past the end
unfoldable pub read_range : Text → ℕ → ℕ → Option Text
read_range content offset n =
    if n == 0 || leb (offset + n) (length content)
    then some (take n (drop offset content))
    else none

unfoldable pub codec_from_suffix : Text → Option Codec
unfolding has_suffix
codec_from_suffix key =
    if has_suffix key (text ".zst")
    then some zstd
    else if has_suffix key (text ".gz")
    then some gzip
    else none

abbrev pub candidates : Text → List Text
candidates file = elim (codec_from_suffix file) [
  | some _ ↦ (archive ++ file) ∷ []
  | none ↦
      (archive ++ file)
      ∷ (archive ++ (file ++ text ".zst"))
      ∷ (archive ++ (file ++ text ".gz"))
      ∷ []
]

-- filepath.Base(file) == file
unfoldable pub is_base : Text → Bool
unfolding text_beq any
is_base file = file == text "/" || not (file == [] || any (λ c. c == b'/') file)

module _ (out : StoreOutside) where
  unfoldable pub rotate_if_needed : Disk → Writer → ℕ → Disk × Writer × Bool
  unfolding insert
  rotate_if_needed disk w now =
      let name = out.hourly_file_name now in
      let file = opened_file disk.current name now in
      let there = record disk { current = insert name file disk.current } in
      if name == w.current_name && w.opened
      then (disk, w, true)
      else if out.open_fails name
      then (disk, close_writer w, false)
      else if out.stat_fails name
      then (there, close_writer w, false)
      else (
        there,
        record { opened = true; closed = false; current_name = name; offset = file.size },
        true,
      )

  -- w.current.Write and what follows
  unfoldable pub write_line : Disk → Writer → Text → ℕ → Disk × Writer × Option (Text × ℕ × ℕ)
  unfolding append_to
  write_line disk w line now =
      let after = λ (bytes : Text). record disk {
        current = append_to disk.current w.current_name bytes now;
      } in
      if w.closed then (disk, w, none) else elim (out.stops_short line) [
        | some n ↦ (after (take n line), w, none)
        | none ↦ (
          after line,
          record w { offset = w.offset + length line },
          some (w.current_name, w.offset, length line),
        )
      ]

  -- `none` is an error
  unfoldable pub write : Disk → Writer → BodyEntry → ℕ → Disk × Writer × Option (Text × ℕ × ℕ)
  unfolding rotate_if_needed write_line
  write disk w e now =
      let (disk', w', fine) = rotate_if_needed disk w now in
      if not fine then (disk', w', none) else elim (out.marshal e) [
        | none ↦ (disk', w', none)
        | some json ↦ write_line disk' w' (json ++ b'\n' ∷ []) now
      ]

  unfoldable pub decoded : Option Text → Got
  decoded none = failed
  decoded (some bytes) = elim (out.unmarshal bytes) [ none ↦ failed | some e ↦ entry e ]

  unfoldable pub read_direct : Text → BodyFile → ℕ → ℕ → Got
  unfolding decoded read_range
  read_direct name f offset n =
      if out.read_fails name then failed else decoded (read_range f.content offset n)

  unfoldable pub read_from_backend_range : Disk → Text → ℕ → ℕ → Got
  unfolding read_direct
  read_from_backend_range disk key offset n = elim (lookup key disk.backend) [
    | none ↦ not_found
    | some f ↦ read_direct key f offset n
  ]

  -- Skipping to the offset fails beyond the end, whatever the length.
  unfoldable pub read_from_backend_compressed : Disk → Text → Codec → ℕ → ℕ → Got
  unfolding decoded
  read_from_backend_compressed disk key codec offset n = elim (lookup key disk.backend) [
    | none ↦ not_found
    | some f ↦ if out.read_fails key then failed else elim (out.decompress codec f.content) [
      | none ↦ failed
      | some content ↦
          decoded (
            if leb (offset + n) (length content) then some (take n (drop offset content)) else none)
    ]
  ]

  -- the loop over the candidates
  unfoldable pub read_candidates : Disk → List Text → ℕ → ℕ → Got
  unfolding read_from_backend_range read_from_backend_compressed codec_from_suffix
  read_candidates disk [] offset n = failed
  read_candidates disk (key ∷ keys) offset n =
      let rest = read_candidates disk keys offset n in
      let found : Got = elim (codec_from_suffix key) [
        | none ↦ read_from_backend_range disk key offset n
        | some codec ↦ read_from_backend_compressed disk key codec offset n
      ] in
      elim found [ entry e ↦ entry e | failed ↦ failed | not_found ↦ rest ]

  -- the tiers of the object store
  unfoldable pub read_backend : Disk → Text → ℕ → ℕ → Got
  unfolding read_from_backend_range read_candidates codec_from_suffix
  read_backend disk file offset n =
      let archived = read_candidates disk (candidates file) offset n in
      elim (codec_from_suffix file) [
        | some _ ↦ archived
        | none ↦ elim (read_from_backend_range disk (recent ++ file) offset n) [
          | entry e ↦ entry e
          | failed ↦ failed
          | not_found ↦ archived
        ]
      ]

  unfoldable pub read : Disk → Text → ℕ → ℕ → Got
  unfolding is_base read_direct read_backend
  read disk file offset n = if not (is_base file) then failed else elim (lookup file disk.current) [
    | some f ↦ read_direct file f offset n
    | none ↦ read_backend disk file offset n
  ]
