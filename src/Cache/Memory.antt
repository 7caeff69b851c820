-- ===== src/Cache/Memory.antt =====
-- internal/cache/memory.go and the response type of internal/cache/cache.go: an LRU cache that is
-- a map from keys to list elements beside a doubly linked list, most recently used first. An
-- element is a pointer, so it carries its address, and the list removes by address. Each operation
-- runs under the cache's lock, with the clock's reading as an argument. Sizes are below 2^63, and
-- the threshold of 80 % is exact for budgets below 2^50 bytes, where the product of the code's
-- floats rounds down to the same integer.
pub mod Recency
pub mod Invariant
pub mod Removal
pub mod Writes
pub mod Steps
pub mod Fit
pub mod Eviction
pub mod Sweep
pub mod Spec
pub mod Bounds
mod Tests
use smart_proxy.Base.{
  ℕ, zero, suc, ◌+◌, ◌-◌, ◌*◌, ◌/◌, Bool, true, false, ◌&&◌, List, [], ◌∷◌, Option, none, some, leb,
  ltb, if◌then◌else◌, ◌==◌, nat_eq, text_eq, length, keep,
}
use smart_proxy.Base.Text.{Text, has_prefix}
use smart_proxy.Base.Dict.{Dict, lookup, erase, insert}

pub record CachedResponse : Type 0 where
  pub status_code : ℕ
  pub headers : Dict Text (List Text)
  pub body : Text
  pub cached_at : ℕ
  pub ttl : ℕ
  pub source_request_id : Text

pub record CacheStats : Type 0 where
  pub hits : ℕ
  pub misses : ℕ
  pub evictions : ℕ
  pub bytes_used : ℕ
  pub entry_count : ℕ

pub record CacheEntry : Type 0 where
  pub key : Text
  pub response : CachedResponse
  pub expires_at : ℕ
  pub size : ℕ

pub record Element : Type 0 where
  pub id : ℕ
  pub value : CacheEntry

pub record MemoryCache : Type 0 where
  pub entries : Dict Text Element
  pub lru_list : List Element
  pub max_bytes : ℕ
  pub used_bytes : ℕ
  pub hits : ℕ
  pub misses : ℕ
  pub evictions : ℕ
  pub next_id : ℕ

unfoldable pub new_memory_cache : ℕ → MemoryCache
new_memory_cache max_bytes = record {
  entries = [];
  lru_list = [];
  max_bytes = max_bytes;
  used_bytes = 0;
  hits = 0;
  misses = 0;
  evictions = 0;
  next_id = 0;
}

values_size : List Text → ℕ
values_size [] = 0
values_size (v ∷ vals) = length v + values_size vals

headers_size : Dict Text (List Text) → ℕ
headers_size [] = 0
headers_size ((k, vals) ∷ headers) = length k + values_size vals + headers_size headers

pub entry_size : CachedResponse → ℕ
unfolding values_size headers_size
entry_size resp = length resp.body + headers_size resp.headers + 128

-- list.Remove: the list without the element at that address
pub remove_id : ℕ → List Element → List Element
remove_id i [] = []
remove_id i (e ∷ l) = if e.id == i then l else e ∷ remove_id i l

pub find_id : ℕ → List Element → Option Element
find_id i [] = none
find_id i (e ∷ l) = if e.id == i then some e else find_id i l

-- list.MoveToFront, which does nothing to an element that is not in the list
pub move_to_front : Element → List Element → List Element
unfolding find_id remove_id
move_to_front e l = elim (find_id e.id l) [ none ↦ l | some _ ↦ e ∷ remove_id e.id l ]

-- list.Back
pub back : List Element → Option Element
back [] = none
back (e ∷ []) = some e
back (e ∷ f ∷ l) = back (f ∷ l)

pub remove_locked : MemoryCache → Element → MemoryCache
remove_locked mc elem = record mc {
  lru_list = remove_id elem.id mc.lru_list;
  entries = erase elem.value.key mc.entries;
  used_bytes = mc.used_bytes - elem.value.size;
}

pub evict_lru_locked : MemoryCache → MemoryCache
evict_lru_locked mc = elim (back mc.lru_list) [
  | none ↦ mc
  | some elem ↦ record (remove_locked mc elem) { evictions = mc.evictions + 1 }
]

abbrev pub is_nonempty : List Element → Bool
is_nonempty [] = false
is_nonempty (_ ∷ _) = true

-- `for maxBytes > 0 && over(usedBytes) && lruList.Len() > 0 { evictLRULocked() }`. Every round
-- shortens the list, so its length is fuel enough (`evict_while_done`).
pub evict_while : ℕ → (ℕ → Bool) → MemoryCache → MemoryCache
evict_while zero over mc = mc
evict_while (suc fuel) over mc =
    elim (ltb 0 mc.max_bytes && over mc.used_bytes && is_nonempty mc.lru_list) [
      | true ↦ evict_while fuel over (evict_lru_locked mc)
      | false ↦ mc
    ]

pub get : MemoryCache → Text → ℕ → MemoryCache × Option CachedResponse
get mc key now = elim (lookup key mc.entries) [
  | none ↦ (record mc { misses = mc.misses + 1 }, none)
  | some elem ↦
      if ltb elem.value.expires_at now
      then (record (remove_locked mc elem) { misses = mc.misses + 1 }, none)
      else (
        record mc { lru_list = move_to_front elem mc.lru_list; hits = mc.hits + 1 },
        some elem.value.response,
      )
]

-- the replacement of an entry with the same key
pub drop_existing : MemoryCache → Text → MemoryCache
drop_existing mc key = elim (lookup key mc.entries) [
  | none ↦ mc
  | some elem ↦ remove_locked mc elem
]

pub make_room : MemoryCache → ℕ → MemoryCache
make_room mc size = evict_while (length mc.lru_list) (λ used. ltb mc.max_bytes (used + size)) mc

-- list.PushFront and the map entry for it
pub push_front : MemoryCache → CacheEntry → MemoryCache
push_front mc entry = record mc {
  lru_list = record { id = mc.next_id; value = entry } ∷ mc.lru_list;
  entries = insert entry.key (record { id = mc.next_id; value = entry }) mc.entries;
  used_bytes = mc.used_bytes + entry.size;
  next_id = suc mc.next_id;
}

abbrev pub new_entry : Text → CachedResponse → ℕ → ℕ → CacheEntry
new_entry key resp ttl now = record {
  key = key;
  response = resp;
  expires_at = now + ttl;
  size = entry_size resp;
}

pub set : MemoryCache → Text → CachedResponse → ℕ → ℕ → MemoryCache
set mc key resp ttl now =
    push_front (make_room (drop_existing mc key) (entry_size resp)) (new_entry key resp ttl now)

pub delete : MemoryCache → Text → MemoryCache
unfolding drop_existing
delete mc key = drop_existing mc key

-- the elements of the map that pass a test, in the order of the `range`
pub matching : (Text → Element → Bool) → Dict Text Element → List Element
matching p [] = []
matching p ((k, e) ∷ d) = if p k e then e ∷ matching p d else matching p d

pub remove_all : MemoryCache → List Element → MemoryCache
remove_all mc [] = mc
remove_all mc (e ∷ es) = remove_all (remove_locked mc e) es

pub delete_by_prefix : MemoryCache → Text → MemoryCache
delete_by_prefix mc prefix = remove_all mc (matching (λ k e. has_prefix k prefix) mc.entries)

pub evict_all : MemoryCache → List Element → MemoryCache
evict_all mc [] = mc
evict_all mc (e ∷ es) = evict_all (record (remove_locked mc e) { evictions = mc.evictions + 1 }) es

abbrev pub threshold : MemoryCache → ℕ
threshold mc = mc.max_bytes * 4 / 5

pub drop_expired : MemoryCache → ℕ → MemoryCache
drop_expired mc now = evict_all mc (matching (λ k e. ltb e.value.expires_at now) mc.entries)

pub trim_to_threshold : MemoryCache → MemoryCache
trim_to_threshold mc = evict_while (length mc.lru_list) (λ used. ltb (threshold mc) used) mc

pub evict_expired : MemoryCache → ℕ → MemoryCache
evict_expired mc now = trim_to_threshold (drop_expired mc now)

pub stats : MemoryCache → CacheStats
stats mc = record {
  hits = mc.hits;
  misses = mc.misses;
  evictions = mc.evictions;
  bytes_used = mc.used_bytes;
  entry_count = length mc.entries;
}

pub close : MemoryCache → MemoryCache
close mc = record mc { entries = []; lru_list = []; used_bytes = 0 }

-- The calls of the cache's interface, and the ticks of its eviction loop.
pub data Call : Type 0 where
  gets : Text → Call
  sets : Text → CachedResponse → ℕ → Call
  deletes : Text → Call
  deletes_by_prefix : Text → Call
  ticks : Call
  closes : Call

pub step : MemoryCache → ℕ × Call → MemoryCache
step mc (now, gets key) = (get mc key now).0
step mc (now, sets key resp ttl) = set mc key resp ttl now
step mc (now, deletes key) = delete mc key
step mc (now, deletes_by_prefix prefix) = delete_by_prefix mc prefix
step mc (now, ticks) = evict_expired mc now
step mc (now, closes) = close mc

pub run : MemoryCache → List (ℕ × Call) → MemoryCache
run mc [] = mc
run mc (c ∷ cs) = run (step mc c) cs
