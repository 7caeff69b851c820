-- ===== src/Bodies/Rotator/Deleted.antt =====
-- internal/bodies/rotator.go: the inventory of the disk after files were deleted from it.
use smart_proxy.Base.{
  ◌≤◌, ◌≡◌, refl, sym, ap, ◌∙◌, inl, inr, Bool, true, not, ◌&&◌, ◌||◌, List, [], ◌∷◌, ◌++◌, arith,
  ltb, if◌then◌else◌, ◌==◌, nat_eq, text_eq, Bool-cases, All, keep, All-map_rule, All-keep,
  keep-append, keep_all, keep-keep,
}
use smart_proxy.Base.Text.{Text}
use smart_proxy.Base.Dict.{Dict, erase}
use native.Mathlib.Nat.{le_trans}
use smart_proxy.Bodies.Rotator.{Disk, BodyFile, Outside, Rotator, list_objects, recent, archive}
use smart_proxy.Bodies.Rotator.Eviction.{
  InventoryItem, local_items, object_items, insert_item, sort_items, size_inventory, delete_item,
  delete_items,
}

-- Oldest first.
abbrev pub Ordered : List InventoryItem → Type 0
Ordered [] = Unit
Ordered (i ∷ items) = All (λ j. i.mod_time ≤ j.mod_time) items × Ordered items

insert_item-All :
    (P : InventoryItem → Type 0) (i : InventoryItem) (items : List InventoryItem)
    → P i
    → All P items
    → All P (insert_item i items)
unfolding insert_item
insert_item-All P i [] p w = (p, tt)
insert_item-All P i (j ∷ items) p (q, w) = ground (arith, insert_item-All P i items p w)

insert_item-Ordered :
    (i : InventoryItem) (items : List InventoryItem) → Ordered items → Ordered (insert_item i items)
unfolding insert_item
insert_item-Ordered i [] w = (tt, tt)
insert_item-Ordered i (j ∷ items) (first, w) = elim (Bool-cases (ltb j.mod_time i.mod_time)) [
  | inl older ↦
      rw (older, insert_item)
        (
          insert_item-All (λ k. j.mod_time ≤ k.mod_time) i items (ground arith) first,
          insert_item-Ordered i items w,
        )
  | inr newer ↦
      let le : i.mod_time ≤ j.mod_time = ground arith in
      rw (newer, insert_item) ((le, All-map_rule items (λ k h. le_trans le h) first), (first, w))
]

sort_items-Ordered : (items : List InventoryItem) → Ordered (sort_items items)
unfolding sort_items
sort_items-Ordered [] = tt
sort_items-Ordered (i ∷ items) = insert_item-Ordered i (sort_items items) (sort_items-Ordered items)

pub size_inventory-Ordered : (disk : Disk) → Ordered (size_inventory disk)
unfolding size_inventory
size_inventory-Ordered disk = sort_items-Ordered (
    local_items disk.current
    ++ (object_items (list_objects recent disk.backend)
        ++ object_items (list_objects archive disk.backend)))

-- Whether an item has another place than a deleted one: the other tier, or another name or key.
abbrev pub elsewhere : InventoryItem → InventoryItem → Bool
elsewhere i j =
    if i.is_local
    then not (j.is_local && j.place == i.place)
    else j.is_local || not (j.place == i.place)

-- Whether an item has none of the deleted places.
unfoldable pub left_by : List InventoryItem → InventoryItem → Bool
left_by [] j = true
left_by (i ∷ deleted) j = elsewhere i j && left_by deleted j

insert_item_first :
    (i : InventoryItem) (items : List InventoryItem)
    → All (λ j. i.mod_time ≤ j.mod_time) items
    → insert_item i items ≡ i ∷ items
unfolding insert_item
insert_item_first i [] w = refl
insert_item_first i (j ∷ items) (le, w) = ground arith

module _ (p : InventoryItem → Bool) where
  keep-insert_item :
      (i : InventoryItem) (items : List InventoryItem)
      → Ordered items
      → keep p (insert_item i items) ≡ (if p i then insert_item i (keep p items) else keep p items)
  unfolding insert_item keep
  keep-insert_item i [] w = ground arith
  keep-insert_item i (j ∷ items) (first, w) = elim (Bool-cases (ltb j.mod_time i.mod_time)) [
    | inl older ↦ ground (arith, keep-insert_item i items w)
    | inr newer ↦
        let le : i.mod_time ≤ j.mod_time = ground arith in
        let front = insert_item_first i (keep p (j ∷ items)) (
          All-keep (λ k. i.mod_time ≤ k.mod_time) p (j ∷ items)
            (le, All-map_rule items (λ k h. le_trans le h) first)) in
        ground (arith, front)
  ]

  keep-sort_items :
      (items : List InventoryItem) → keep p (sort_items items) ≡ sort_items (keep p items)
  unfolding sort_items keep
  keep-sort_items [] = refl
  keep-sort_items (i ∷ items) = ground (
    arith,
    keep-insert_item i (sort_items items) (sort_items-Ordered items),
    keep-sort_items items,
  )

module _ (k : Text) where
  abbrev not_local : InventoryItem → Bool
  not_local j = not (j.is_local && j.place == k)

  abbrev not_object : InventoryItem → Bool
  not_object j = j.is_local || not (j.place == k)

  local_items-erase :
      (d : Dict Text BodyFile) → local_items (erase k d) ≡ keep not_local (local_items d)
  unfolding local_items erase keep
  local_items-erase [] = refl
  local_items-erase ((name, f) ∷ d) = ground (arith, local_items-erase d)

  keep-local_items : (d : Dict Text BodyFile) → keep not_object (local_items d) ≡ local_items d
  unfolding local_items keep
  keep-local_items [] = refl
  keep-local_items ((name, f) ∷ d) = ground (arith, keep-local_items d)

  keep-object_items : (d : Dict Text BodyFile) → keep not_local (object_items d) ≡ object_items d
  unfolding object_items keep
  keep-object_items [] = refl
  keep-object_items ((key, f) ∷ d) = ground (arith, keep-object_items d)

  object_items-erase :
      (prefix : Text) (d : Dict Text BodyFile)
      → object_items (list_objects prefix (erase k d))
        ≡ keep not_object (object_items (list_objects prefix d))
  unfolding object_items list_objects erase keep
  object_items-erase prefix [] = refl
  object_items-erase prefix ((key, f) ∷ d) = ground (arith, object_items-erase prefix d)

keep-size_inventory :
    (p : InventoryItem → Bool) (disk : Disk)
    → keep p (size_inventory disk)
      ≡ sort_items (
          keep p (local_items disk.current)
          ++ (keep p (object_items (list_objects recent disk.backend))
              ++ keep p (object_items (list_objects archive disk.backend))))
unfolding size_inventory
keep-size_inventory p disk =
    let locals = local_items disk.current in
    let recents = object_items (list_objects recent disk.backend) in
    let archives = object_items (list_objects archive disk.backend) in
    keep-sort_items p (locals ++ (recents ++ archives))
    ∙ ap sort_items (
        keep-append p locals (recents ++ archives)
        ∙ ap (λ l. keep p locals ++ l) (keep-append p recents archives))

size_inventory-delete_item :
    (disk : Disk) (i : InventoryItem)
    → size_inventory (delete_item disk i) ≡ keep (elsewhere i) (size_inventory disk)
unfolding size_inventory delete_item
size_inventory-delete_item disk i =
    let locals = local_items disk.current in
    let recents = object_items (list_objects recent disk.backend) in
    let archives = object_items (list_objects archive disk.backend) in
    let test = λ (here : Bool) (j : InventoryItem).
      if here
      then not (j.is_local && j.place == i.place)
      else j.is_local || not (j.place == i.place) in
    elim (Bool-cases i.is_local) [
      | inl here ↦
          let cut : size_inventory (delete_item disk i)
              ≡ sort_items (keep (not_local i.place) locals ++ (recents ++ archives)) =
            simp (here, local_items-erase) refl in
          cut
          ∙ sym (
              ap (λ b. keep (test b) (size_inventory disk)) here
              ∙ keep-size_inventory (not_local i.place) disk
              ∙ simp keep-object_items refl)
      | inr there ↦
          let cut : size_inventory (delete_item disk i)
              ≡ sort_items (
                  locals
                  ++ (keep (not_object i.place) recents ++ keep (not_object i.place) archives)) =
            simp (there, object_items-erase) refl in
          cut
          ∙ sym (
              ap (λ b. keep (test b) (size_inventory disk)) there
              ∙ keep-size_inventory (not_object i.place) disk
              ∙ simp keep-local_items refl)
    ]

-- The inventory after deletions is the one before without the items of the deleted places.
pub size_inventory-delete_items :
    (out : Outside) (r : Rotator) (deleted : List InventoryItem) (disk : Disk)
    → size_inventory (delete_items out r disk deleted)
      ≡ keep (left_by deleted) (size_inventory disk)
unfolding delete_items left_by
size_inventory-delete_items out r [] disk = sym (keep_all (size_inventory disk))
size_inventory-delete_items out r (i ∷ deleted) disk =
    size_inventory-delete_items out r deleted (delete_item disk i)
    ∙ ap (keep (left_by deleted)) (size_inventory-delete_item disk i)
    ∙ keep-keep (elsewhere i) (left_by deleted) (size_inventory disk)
