-- ===== src/Bodies/Rotator/Budget.antt =====
-- internal/bodies/rotator.go: the size budget holds after an eviction, at the cost of the oldest files.
use smart_proxy.Bodies.Rotator.Eviction.{
  InventoryItem, total_size, size_inventory, deletion_fails, evict_items, delete_items,
  evict_by_size,
}
use smart_proxy.Base.{
  ℕ, ◌+◌, ◌-◌, ◌≤◌, ◌<◌, ◌≡◌, refl, ap, ◌⊎◌, inl, inr, true, false, not, ◌||◌, List, [], ◌∷◌, ◌++◌,
  map, arith, leb, ◌==◌, nat_eq, text_eq, Bool-cases, All, keep, All-map_rule, keep_swap,
  keep-append,
}
use smart_proxy.Base.Text.{Text, text}
use smart_proxy.Bodies.Rotator.{Disk, Outside, Rotator, notify_orphans, recent, archive}
use smart_proxy.Base.{
  ℕ, ◌+◌, ◌-◌, ◌≤◌, ◌<◌, ◌≡◌, refl, ap, ◌∙◌, ◌⊎◌, inl, inr, Bool, true, false, not, ◌||◌, List, [],
  ◌∷◌, ◌++◌, map, arith, leb, ◌==◌, nat_eq, text_eq, text_beq_iff, Bool-cases, All, keep,
}
use smart_proxy.Base.Text.{Text, text}
use smart_proxy.Bodies.Rotator.Deleted.{
  Ordered, size_inventory-Ordered, left_by, size_inventory-delete_items,
}

total_size-append :
    (items more : List InventoryItem)
    → total_size (items ++ more) ≡ total_size items + total_size more
total_size-append [] more = omega arith
total_size-append (i ∷ items) more = omega (arith, total_size-append items more)

total_size-keep :
    (p : InventoryItem → Bool) (items : List InventoryItem)
    → total_size (keep p items) + total_size (keep (λ i. not (p i)) items) ≡ total_size items
unfolding keep
total_size-keep p [] = omega arith
total_size-keep p (i ∷ items) = ground (arith, total_size-keep p items)

-- No deleted item has none of the deleted places.
left_by_deleted :
    (deleted : List InventoryItem) (p : InventoryItem → Bool)
    → ((j : InventoryItem) → p j ≡ true → left_by deleted j ≡ true)
    → keep p deleted ≡ []
unfolding keep left_by
left_by_deleted [] p h = refl
left_by_deleted (i ∷ deleted) p h =
    let rest = left_by_deleted deleted p (λ j e. ground (arith, h j e)) in
    elim (Bool-cases (p i)) [
      | inr e ↦ rw (e, keep) rest
      | inl e ↦ absurd (ground (arith, h i e, text_beq_iff i.place i.place))
    ]

none_pass :
    (p : InventoryItem → Bool) (items : List InventoryItem)
    → keep p items ≡ []
    → All (λ i. p i ≡ false) items
unfolding keep
none_pass p [] h = tt
none_pass p (i ∷ items) h = ground (arith, none_pass p items)

module _ (p : InventoryItem → Bool) (items deleted kept : List InventoryItem) where
  -- What is left among the items that pass a test is what the loop kept of them.
  left_open :
      keep p items ≡ deleted ++ kept
      → keep p (keep (left_by deleted) items) ≡ keep (left_by deleted) kept
  left_open parts =
      keep_swap (left_by deleted) p items
      ∙ ap (keep (left_by deleted)) parts
      ∙ keep-append (left_by deleted) deleted kept
      ∙ ap (λ l. l ++ keep (left_by deleted) kept)
          (left_by_deleted deleted (left_by deleted) (λ j e. e))

  -- The bytes left are no more than those that were not deleted.
  total_size_left :
      keep p items ≡ deleted ++ kept
      → total_size (keep (left_by deleted) items) + total_size deleted ≤ total_size items
  total_size_left parts =
      let left = keep (left_by deleted) items in
      let exempt = λ (i : InventoryItem). not (p i) in
      let swapped = keep_swap (left_by deleted) exempt items in
      omega (
        arith,
        total_size-keep p items,
        total_size-keep p left,
        total_size-keep (left_by deleted) (keep exempt items),
        total_size-keep (left_by deleted) kept,
        total_size-append deleted kept,
        ap total_size parts,
        ap total_size swapped,
        ap total_size (left_open parts),
      )

  -- Where all items that pass the test were deleted, those left do not pass it.
  left_exempt :
      keep p items ≡ deleted ++ kept
      → kept ≡ []
      → All (λ i. p i ≡ false) (keep (left_by deleted) items)
  unfolding keep
  left_exempt parts none_kept =
      none_pass p (keep (left_by deleted) items)
        (left_open parts ∙ ap (keep (left_by deleted)) none_kept ∙ refl)

module _ (out : Outside) (r : Rotator) where
  -- Of the items that are not the active hour's, the loop deletes a run from the front, and stops for no
  -- other reason than that the rest fits, or a deletion fails.
  evict_items_lem :
      (items : List InventoryItem) (total : ℕ) (active : Text)
      → total_size items ≤ total
      → let (deleted, left, fine) = evict_items out r items total active in
        (total ≡ total_size deleted + left)
        × ((kept : List InventoryItem) × (keep (λ i. not (i.file == active)) items
              ≡ deleted ++ kept)
            × (fine ≡ true → (left ≤ r.max_bytes) ⊎ (kept ≡ [])))
  unfolding evict_items keep
  evict_items_lem [] total active h = (omega arith, ([], refl, λ e. inr refl))
  evict_items_lem (i ∷ items) total active h =
      let others = λ (l : List InventoryItem). keep (λ j. not (j.file == active)) l in
      elim (Bool-cases (leb total r.max_bytes)) [
        | inl fits ↦
            rw (fits, evict_items)
              (omega arith, (others (i ∷ items), refl, λ e. inl (ground arith)))
        | inr over ↦ elim (Bool-cases (i.file == active)) [
          | inl exempt ↦
              let (sums, (kept, parts, ends)) = evict_items_lem items total active (omega arith) in
              rw (over, exempt, evict_items) (sums, (kept, parts, ends))
          | inr open_item ↦ elim (Bool-cases (deletion_fails out r i)) [
            | inl failing ↦
                rw (over, open_item, failing, evict_items)
                  (omega arith, (i ∷ others items, refl, λ e. cc))
            | inr deletes ↦
                let (sums, (kept, parts, ends)) =
                  evict_items_lem items (total - i.size) active (omega arith) in
                rw (over, open_item, deletes, evict_items)
                  (omega (arith, sums), (kept, ap (◌∷◌ i) parts, ends))
          ]
        ]
      ]

  -- From what the loop did to what is left on the disk.
  fits_or_exempt :
      (disk : Disk) (active : Text) (deleted kept : List InventoryItem) (left : ℕ)
      → total_size (size_inventory disk) ≡ total_size deleted + left
      → keep (λ i. not (i.file == active)) (size_inventory disk) ≡ deleted ++ kept
      → (left ≤ r.max_bytes) ⊎ (kept ≡ [])
      → let after = delete_items out r disk deleted in
        (total_size (size_inventory after) ≤ r.max_bytes)
        ⊎ All (λ i. i.file ≡ active) (size_inventory after)
  fits_or_exempt disk active deleted kept left sums parts ends =
      let others = λ (i : InventoryItem). not (i.file == active) in
      let items = size_inventory disk in
      rw (size_inventory-delete_items out r deleted disk) (elim ends [
        | inl fits ↦ inl (omega (arith, sums, total_size_left others items deleted kept parts))
        | inr none_kept ↦ inr (
            All-map_rule (keep (left_by deleted) items)
              (λ i e. ground (arith, text_beq_iff i.file active))
              (left_exempt others items deleted kept parts none_kept))
      ])

  -- The size budget. Let an eviction succeed, under a budget that is not 0. Then the inventory of the
  -- disk afterwards fits in the budget, or lists nothing but files of the active hour's name. It is the
  -- inventory before without the items at the places of the deleted ones, in the same order. Of the
  -- files of other names these are the oldest: the inventory is in order of time, and they stand before
  -- the others. And the notifier is told of exactly these.
  pub evict_by_size_lem :
      (disk : Disk) (now : ℕ)
      → (evict_by_size out r disk now).succeeded ≡ true
      → 0 < r.max_bytes
      → let after = evict_by_size out r disk now in
        let others = keep (λ i. not (i.file == out.hourly_file_name now)) (size_inventory disk) in
        ((total_size (size_inventory after.disk) ≤ r.max_bytes)
          ⊎ All (λ i. i.file ≡ out.hourly_file_name now) (size_inventory after.disk))
        × Ordered (size_inventory disk)
        × (deleted : List InventoryItem) × (kept : List InventoryItem) × (others ≡ deleted ++ kept)
        × (size_inventory after.disk ≡ keep (left_by deleted) (size_inventory disk))
        × (after.notified ≡ notify_orphans out r (map (λ i. i.file) deleted))
  unfolding evict_by_size
  evict_by_size_lem disk now h capped =
      let active = out.hourly_file_name now in
      let items = size_inventory disk in
      let others = λ (i : InventoryItem). not (i.file == active) in
      let deleted = (evict_items out r items (total_size items) active).0 in
      let (sums, (kept, parts, ends)) =
        evict_items_lem items (total_size items) active (omega arith) in
      let on : leb r.max_bytes 0 ≡ false = ground arith in
      let left = size_inventory-delete_items out r deleted disk in
      elim (Bool-cases
        (out.list_fails (text "current") || out.list_fails recent || out.list_fails archive)) [
          | inl unlisted ↦ let no : false ≡ true = rw (on, unlisted, evict_by_size) at h in cc
          | inr listed ↦ elim (Bool-cases (evict_items out r items (total_size items) active).2) [
            | inr failed ↦ let no : false ≡ true = rw (on, listed, failed, evict_by_size) at h in cc
            | inl fine ↦
                rw (on, listed, fine, evict_by_size)
                  (
                    fits_or_exempt disk active deleted kept _ sums parts (ends fine),
                    size_inventory-Ordered disk,
                    deleted,
                    kept,
                    parts,
                    left,
                    refl,
                  )
          ]
        ]
