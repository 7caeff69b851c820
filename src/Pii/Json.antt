-- ===== src/Pii/Json.antt =====
-- internal/pii/jsonpath.go: decoded JSON documents and the walk along a path. A map of the code is the
-- chain of its members; numbers are kept as their text.
use smart_proxy.Base.{
  ℕ, zero, suc, ◌+◌, ◌-◌, ◌*◌, ◌/◌, ◌%◌, ◌^◌, ◌≤◌, ◌<◌, ◌≡◌, refl, sym, ap, subst, ◌∙◌, ◌≢◌, ◌↔◌,
  ◌⊎◌, inl, inr, Bool, true, false, not, ◌&&◌, ◌||◌, Option, none, some, List, [], ◌∷◌, ◌++◌, map,
  arith, ltb, leb, if◌then◌else◌, Eq, ◌==◌, nat_eq, text_eq, text_beq, nat_beq_iff, text_beq_iff,
  Bool-cases, Option-cases, length, All, keep, take, drop,
}
use smart_proxy.Base.Text
use smart_proxy.Base.Text.{Text, text, has_prefix, has_suffix, split, index_byte}
use smart_proxy.Base.Dict.{Dict, lookup, insert, erase, IsDistinct, lookup-insert, lookup-erase}
pub mod Elements
pub mod Walk
pub mod Paths

mutual
  pub data Json : Type 0 where
    null : Json
    boolean : Bool → Json
    number : Text → Json
    string : Text → Json
    array : Elems → Json
    object : Members → Json

  pub data Elems : Type 0 where
    no_elem : Elems
    elem : Json → Elems → Elems

  pub data Members : Type 0 where
    no_member : Members
    member : Text → Json → Members → Members

-- value, exists := obj[key]
unfoldable pub get_member : Text → Members → Option Json
get_member k no_member = none
get_member k (member j v ms) = if j == k then some v else get_member k ms

-- obj[key] = v for a key that exists
unfoldable pub set_member : Text → Json → Members → Members
set_member k v no_member = no_member
set_member k v (member j w ms) = if j == k then member j v ms else member j w (set_member k v ms)

-- delete(obj, key)
unfoldable pub delete_member : Text → Members → Members
delete_member k no_member = no_member
delete_member k (member j v ms) =
    if j == k then delete_member k ms else member j v (delete_member k ms)

unfoldable pub nth_elem : ℕ → Elems → Option Json
nth_elem n no_elem = none
nth_elem zero (elem v vs) = some v
nth_elem (suc n) (elem v vs) = nth_elem n vs

unfoldable pub set_elem : ℕ → Json → Elems → Elems
set_elem n v no_elem = no_elem
set_elem zero v (elem w vs) = elem v vs
set_elem (suc n) v (elem w vs) = elem w (set_elem n v vs)

-- path[2:] after "$.", path[1:] after "$"
unfoldable pub strip_root : Text → Text
strip_root path =
    if has_prefix path (text "$.")
    then drop 2 path
    else if has_prefix path (text "$")
    then drop 1 path
    else path

-- the segments of one part between dots
unfoldable pub part_segments : Text → List Text
unfolding index_byte
part_segments part = if part == [] then [] else elim (index_byte part b'[') [
  | none ↦ part ∷ []
  | some idx ↦ if idx == 0 then drop idx part ∷ [] else take idx part ∷ drop idx part ∷ []
]

unfoldable pub all_segments : List Text → List Text
unfolding part_segments
all_segments [] = []
all_segments (part ∷ parts) = part_segments part ++ all_segments parts

unfoldable pub parse_path : Text → List Text
unfolding strip_root split all_segments
parse_path path = let p = strip_root path in if p == [] then [] else all_segments (split p b'.')

unfoldable pub digits : Text → ℕ → Option ℕ
digits [] acc = some acc
digits (c ∷ s) acc =
    let rest = digits s (acc * 10 + (c - b'0')) in if leb b'0' c && leb c b'9' then rest else none

-- strconv.Atoi, for the indices that the code accepts: `none` is an error or a negative number. Beyond
-- 64 bits, where the code has an error, a number here is past the end of every array.
unfoldable pub atoi : Text → Option ℕ
unfolding digits
atoi [] = none
atoi (c ∷ s) =
    if s == []
    then digits (c ∷ s) 0
    else if c == b'+'
    then digits s 0
    else if c == b'-'
    then elim (digits s 0) [ none ↦ none | some n ↦ if n == 0 then some 0 else none ]
    else digits (c ∷ s) 0

abbrev pub is_bracket : Text → Bool
is_bracket seg = has_prefix seg (text "[") && has_suffix seg (text "]")

abbrev pub inside : Text → Text
inside seg = take (length seg - 2) (drop 1 seg)

-- every element of "[*]", with whether one was found
unfoldable pub walk_elems : (Json → Json × Bool) → Elems → Elems × Bool
walk_elems f no_elem = (no_elem, false)
walk_elems f (elem v vs) =
    let (v', found) = f v in let (vs', others) = walk_elems f vs in (elem v' vs', found || others)

-- what a bracket segment selects
pub data Selection : Type 0 where
  all_elems : Selection
  one_elem : ℕ → Selection
  no_selection : Selection

unfoldable pub selection : Text → Selection
unfolding atoi
selection seg =
    if seg == text "[*]"
    then all_elems
    else elim (atoi (inside seg)) [ none ↦ no_selection | some n ↦ one_elem n ]

unfoldable pub walk_selected : Elems → Selection → (Json → Json × Bool) → Elems × Bool
unfolding walk_elems nth_elem set_elem
walk_selected vs all_elems f = walk_elems f vs
walk_selected vs (one_elem n) f = elim (nth_elem n vs) [
  | none ↦ (vs, false)
  | some v ↦ let (v', found) = f v in (set_elem n v' vs, found)
]
walk_selected vs no_selection f = (vs, false)

unfoldable pub walk_array_segment : Json → Text → (Json → Json × Bool) → Json × Bool
unfolding walk_selected selection
walk_array_segment (array vs) seg f =
    let (vs', found) = walk_selected vs (selection seg) f in (array vs', found)
walk_array_segment null seg f = (null, false)
walk_array_segment (boolean b) seg f = (boolean b, false)
walk_array_segment (number t) seg f = (number t, false)
walk_array_segment (string t) seg f = (string t, false)
walk_array_segment (object ms) seg f = (object ms, false)

-- a field segment that is not the last: the child is walked in its place
unfoldable pub walk_child : Json → Text → (Json → Json × Bool) → Json × Bool
unfolding get_member set_member
walk_child (object ms) seg f = elim (get_member seg ms) [
  | none ↦ (object ms, false)
  | some child ↦ let (child', found) = f child in (object (set_member seg child' ms), found)
]
walk_child null seg f = (null, false)
walk_child (boolean b) seg f = (boolean b, false)
walk_child (number t) seg f = (number t, false)
walk_child (string t) seg f = (string t, false)
walk_child (array vs) seg f = (array vs, false)

-- the last field segment: the callback edits the parent's member
unfoldable pub apply_last : Json → Text → (Members → Text → Members) → Json × Bool
unfolding get_member
apply_last (object ms) seg edit = elim (get_member seg ms) [
  | none ↦ (object ms, false)
  | some v ↦ (object (edit ms seg), true)
]
apply_last null seg edit = (null, false)
apply_last (boolean b) seg edit = (boolean b, false)
apply_last (number t) seg edit = (number t, false)
apply_last (string t) seg edit = (string t, false)
apply_last (array vs) seg edit = (array vs, false)

-- `edit` is the callback, which returns true in every use
unfoldable pub walk_segments : Json → List Text → (Members → Text → Members) → Json × Bool
unfolding walk_array_segment walk_child apply_last
walk_segments data' [] edit = (data', false)
walk_segments data' (seg ∷ []) edit =
    if is_bracket seg
    then walk_array_segment data' seg (λ v. (v, false))
    else apply_last data' seg edit
walk_segments data' (seg ∷ next ∷ rest) edit =
    let deeper = λ (v : Json). walk_segments v (next ∷ rest) edit in
    if is_bracket seg then walk_array_segment data' seg deeper else walk_child data' seg deeper

unfoldable pub walk_and_apply : Json → Text → (Members → Text → Members) → Json × Bool
unfolding walk_segments parse_path
walk_and_apply data' path edit = walk_segments data' (parse_path path) edit
