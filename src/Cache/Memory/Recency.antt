-- ===== src/Cache/Memory/Recency.antt =====
-- The recency list, searched by key: what removal by address does to it.
use smart_proxy.Base.{
  ℕ, ◌+◌, ◌<◌, ◌≡◌, refl, List, [], ◌∷◌, Option, none, some, arith, if◌then◌else◌, ◌==◌, nat_eq,
  text_eq, nat_beq_iff, text_beq_iff, length, All,
}
use smart_proxy.Base.Text.{Text}
use smart_proxy.Cache.Memory.{Element, remove_id, find_id, back}

unfoldable pub find_key : Text → List Element → Option Element
find_key k [] = none
find_key k (e ∷ l) = if e.value.key == k then some e else find_key k l

unfoldable pub remove_key : Text → List Element → List Element
remove_key k [] = []
remove_key k (e ∷ l) = if e.value.key == k then remove_key k l else e ∷ remove_key k l

abbrev pub total : List Element → ℕ
total [] = 0
total (e ∷ l) = e.value.size + total l

-- Neither a key nor an address stands twice.
abbrev pub Linked : List Element → Type 0
Linked [] = Unit
Linked (e ∷ l) = (find_key e.value.key l ≡ none) × (find_id e.id l ≡ none) × Linked l

pub find_key_sound :
    (k : Text) (l : List Element) {e : Element} → find_key k l ≡ some e → e.value.key ≡ k
unfolding find_key
find_key_sound k [] h = cc
find_key_sound k (f ∷ l) {e} h =
    ground (arith, text_beq_iff f.value.key k, find_key_sound k l {e = e})

pub find_id_of_find_key :
    (k : Text) (l : List Element) {e : Element}
    → Linked l
    → find_key k l ≡ some e
    → find_id e.id l ≡ some e
unfolding find_key find_id
find_id_of_find_key k [] w h = cc
find_id_of_find_key k (f ∷ l) {e} w h =
    ground
      (arith, nat_beq_iff f.id e.id, nat_beq_iff f.id f.id, find_id_of_find_key k l {e = e} w.2)

pub remove_key_absent : (k : Text) (l : List Element) → find_key k l ≡ none → remove_key k l ≡ l
unfolding find_key remove_key
remove_key_absent k [] h = refl
remove_key_absent k (e ∷ l) h = ground (arith, remove_key_absent k l)

-- Removing an element by its address removes its key.
pub remove_id-remove_key :
    (k : Text) (l : List Element) {e : Element}
    → Linked l
    → find_key k l ≡ some e
    → remove_id e.id l ≡ remove_key k l
unfolding find_key remove_id remove_key
remove_id-remove_key k [] w h = cc
remove_id-remove_key k (f ∷ l) {e} w h = ground (
  arith,
  nat_beq_iff f.id e.id,
  text_beq_iff f.value.key k,
  remove_key_absent k l,
  find_id_of_find_key k l {e = e} w.2,
  remove_id-remove_key k l {e = e} w.2,
)

pub find_key-remove_key :
    (k j : Text) (l : List Element)
    → find_key j (remove_key k l) ≡ (if k == j then none else find_key j l)
unfolding find_key remove_key
find_key-remove_key k j [] = ground arith
find_key-remove_key k j (e ∷ l) = ground (
  arith,
  text_beq_iff e.value.key k,
  text_beq_iff e.value.key j,
  text_beq_iff k j,
  find_key-remove_key k j l,
)

find_id-remove_key :
    (k : Text) (i : ℕ) (l : List Element) → find_id i l ≡ none → find_id i (remove_key k l) ≡ none
unfolding find_id remove_key
find_id-remove_key k i [] h = refl
find_id-remove_key k i (e ∷ l) h = ground (arith, find_id-remove_key k i l)

pub remove_key-Linked : (k : Text) (l : List Element) → Linked l → Linked (remove_key k l)
unfolding remove_key
remove_key-Linked k [] w = tt
remove_key-Linked k (e ∷ l) w = ground (
  arith,
  remove_key-Linked k l w.2,
  find_id-remove_key k e.id l,
  find_key-remove_key k e.value.key l,
)

pub remove_key-All {κ} :
    (P : Element → Type κ) (k : Text) (l : List Element) → All P l → All P (remove_key k l)
unfolding remove_key
remove_key-All P k [] h = tt
remove_key-All P k (e ∷ l) h = ground (arith, remove_key-All P k l h.1)

pub total-remove_key :
    (k : Text) (l : List Element) {e : Element}
    → Linked l
    → find_key k l ≡ some e
    → total (remove_key k l) + e.value.size ≡ total l
unfolding find_key remove_key
total-remove_key k [] w h = cc
total-remove_key k (f ∷ l) {e} w h =
    ground
      (arith, text_beq_iff f.value.key k, remove_key_absent k l, total-remove_key k l {e = e} w.2)

pub length-remove_key :
    (k : Text) (l : List Element) {e : Element}
    → Linked l
    → find_key k l ≡ some e
    → length (remove_key k l) + 1 ≡ length l
unfolding find_key remove_key
length-remove_key k [] w h = cc
length-remove_key k (f ∷ l) {e} w h =
    ground
      (arith, text_beq_iff f.value.key k, remove_key_absent k l, length-remove_key k l {e = e} w.2)

-- The last element of a list is the one that a search for its key finds.
pub find_key-back :
    (l : List Element) {e : Element} → Linked l → back l ≡ some e → find_key e.value.key l ≡ some e
unfolding find_key back
find_key-back [] w h = cc
find_key-back (f ∷ []) {e} w h = ground (arith, text_beq_iff f.value.key e.value.key)
find_key-back (f ∷ g ∷ l) {e} w h =
    ground (arith, text_beq_iff f.value.key e.value.key, find_key-back (g ∷ l) {e = e} w.2 h)

pub find_id_of_bound : (n : ℕ) (l : List Element) → All (λ e. e.id < n) l → find_id n l ≡ none
unfolding find_id
find_id_of_bound n [] h = refl
find_id_of_bound n (e ∷ l) h = ground (arith, find_id_of_bound n l h.1)
