-- ===== src/Bodies/StoreTests.antt =====
-- Runs of internal/bodies/writer.go and reader.go, and the theorems at concrete inputs.
use smart_proxy.Base.{
  ◌≡◌, refl, inl, true, false, none, some, [], ◌∷◌, ◌++◌, ltb, if◌then◌else◌, nat_eq, text_eq,
  text_beq, any,
}
use smart_proxy.Base.Text.{Text, text, has_suffix}
use smart_proxy.Base.Dict.{lookup}
use smart_proxy.Bodies.Rotator.{BodyFile, Disk, Outside, Rotator, zstd, promote_current_to_recent}
use smart_proxy.Bodies.Store.{
  BodyEntry, StoreOutside, Writer, entry, new_writer, write, read, is_base, codec_from_suffix,
  read_direct, append_to, decoded, read_range,
}
use smart_proxy.Bodies.Store.Roundtrip.{run_writes, write-read}
use smart_proxy.Bodies.Store.Rotation.{read-promote_current_to_recent}
use smart_proxy.Bodies.Store.Short.{write_short}

abbrev body_entry : Text → BodyEntry
body_entry id = record {
  id = id;
  request_headers = [];
  response_headers = [];
  request_body = [];
  response_body = text "null";
}

-- An entry's JSON is its id in braces. The line of `b` stops short after two bytes.
abbrev json : Text → Text
json id = text "{" ++ (id ++ text "}")

abbrev line : Text → Text
line id = json id ++ b'\n' ∷ []

abbrev outside : StoreOutside
outside = record {
  marshal = λ e. some (json e.id);
  unmarshal = λ t. if text_beq t (line (text "a")) then some (body_entry (text "a")) else none;
  decompress = λ codec t. some t;
  hourly_file_name = λ now. if ltb now 60 then text "11.jsonl" else text "12.jsonl";
  open_fails = λ name. false;
  stat_fails = λ name. false;
  stops_short = λ t. if text_beq t (line (text "b")) then some 2 else none;
  read_fails = λ name. false;
}

abbrev empty : Disk
empty = record { current = []; backend = [] }

abbrev hour : Text
hour = text "11.jsonl"

written : (write outside empty new_writer (body_entry (text "a")) 5).2 ≡ some (hour, 0, 4)
unfolding write text_beq append_to lookup
written = refl

write-read_example :
    read outside
      (run_writes outside
        (write outside empty new_writer (body_entry (text "a")) 5).0
        (write outside empty new_writer (body_entry (text "a")) 5).1
        ((body_entry (text "b"), 6) ∷ (body_entry (text "c"), 61) ∷ [])).0
      hour
      0
      4
    ≡ entry (body_entry (text "a"))
write-read_example =
    write-read outside empty new_writer (body_entry (text "a")) 5 (json (text "a")) hour 0 4
      ((body_entry (text "b"), 6) ∷ (body_entry (text "c"), 61) ∷ [])
      (record { sized = tt; placed = inl refl }) refl (unfold text_beq in refl)
      (unfold is_base text_beq any in refl) refl written

abbrev stored : BodyFile
stored = record { content = line (text "a"); size = 4; mod_time = 5 }

abbrev one_hour : Disk
one_hour = record { current = (hour, stored) ∷ []; backend = [] }

abbrev store : Outside
store = record {
  list_fails = λ place. false;
  put_fails = λ key. false;
  delete_fails = λ key. false;
  remove_fails = λ name. false;
  compress = λ content. content;
  hourly_file_name = λ now. text "12.jsonl";
}

abbrev rotator : Rotator
rotator = record {
  codec = zstd;
  recent_max_age = 5;
  archive_max_age = 50;
  max_bytes = 0;
  notifier = false;
}

read-promote_current_to_recent_example :
    read outside (promote_current_to_recent store rotator one_hour 70).disk hour 0 4
    ≡ entry (body_entry (text "a"))
read-promote_current_to_recent_example =
    read-promote_current_to_recent outside store rotator one_hour 70 hour stored 0 4
      (body_entry (text "a")) (unfold lookup in (refl, tt)) (unfold lookup text_beq in refl)
      (unfold is_base text_beq any in refl) (unfold codec_from_suffix has_suffix in refl) refl refl
      (unfold read is_base text_beq any lookup read_direct decoded read_range in refl)

-- a compressed file is found under the extension
archived :
    read outside
      (record { current = []; backend = (text "archive/11.jsonl.gz", stored) ∷ [] })
      hour
      0
      4
    ≡ entry (body_entry (text "a"))
unfolding read lookup text_beq any has_suffix
archived = refl

abbrev at_end : Writer
at_end = record { opened = true; closed = false; current_name = hour; offset = 4 }

write_short_example :
    ((write outside one_hour at_end (body_entry (text "b")) 6).2 ≡ none)
    × ((write outside
          (write outside one_hour at_end (body_entry (text "b")) 6).0
          (write outside one_hour at_end (body_entry (text "b")) 6).1
          (body_entry (text "c"))
          7).2
        ≡ some (hour, 4, 4))
    × (g : BodyFile) × (lookup hour
          (write outside
            (write outside one_hour at_end (body_entry (text "b")) 6).0
            (write outside one_hour at_end (body_entry (text "b")) 6).1
            (body_entry (text "c"))
            7).0.current
        ≡ some g)
    × (g.content ≡ line (text "a") ++ (text "{b" ++ line (text "c")))
write_short_example =
    write_short outside one_hour at_end (body_entry (text "b")) (body_entry (text "c")) 6 7 2
      (json (text "b")) (json (text "c")) stored refl refl refl refl
      (unfold lookup text_beq in refl) refl refl refl (unfold text_beq in refl)
      (unfold text_beq in refl)
