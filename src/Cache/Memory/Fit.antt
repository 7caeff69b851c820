-- ===== src/Cache/Memory/Fit.antt =====
-- The recency list as the entries that it holds, and the longest prefix of it within a budget.
use smart_proxy.Cache.Memory.Recency.{remove_key, total}
use smart_proxy.Base.Text.{Text}
use smart_proxy.Base.{
  ℕ, List, Bool, ◌≤◌, ◌+◌, ◌≡◌, ◌++◌, ◌∷◌, map, if◌then◌else◌, true, [], false, arith, ◌==◌,
  add-zero, text_eq, add_assoc, nat_eq, refl, Bool-cases, ap, inl, inr,
}
use smart_proxy.Cache.Memory.{MemoryCache, Text, CacheEntry, Element}

-- The entries as the recency list has them, most recently used first.
abbrev pub recent : MemoryCache → List CacheEntry
recent mc = map (λ e. e.value) mc.lru_list

abbrev pub total_size : List CacheEntry → ℕ
total_size [] = 0
total_size (e ∷ l) = e.size + total_size l

-- The list without the entries that it has under a key.
unfoldable pub without : Text → List CacheEntry → List CacheEntry
without k [] = []
without k (e ∷ l) = if e.key == k then without k l else e ∷ without k l

-- The longest prefix whose sizes, added to `acc`, stay within the budget at each entry.
unfoldable pub fit : (ℕ → Bool) → ℕ → List CacheEntry → List CacheEntry
fit over acc [] = []
fit over acc (e ∷ l) = if over (acc + e.size) then [] else e ∷ fit over (acc + e.size) l

-- A larger byte count is over the budget too.
abbrev pub Mono : (ℕ → Bool) → Type 0
Mono over = (a b : ℕ) → a ≤ b → over a ≡ true → over b ≡ true

pub Mono-false : (over : ℕ → Bool) (a b : ℕ) → Mono over → a ≤ b → over b ≡ false → over a ≡ false
Mono-false over a b mono h e = ground (arith, mono a b h)

pub total-total_size : (l : List Element) → total l ≡ total_size (map (λ e. e.value) l)
total-total_size [] = refl
total-total_size (e ∷ l) = omega (arith, total-total_size l)

pub map-remove_key :
    (k : Text) (l : List Element)
    → map (λ e. e.value) (remove_key k l) ≡ without k (map (λ e. e.value) l)
unfolding remove_key without
map-remove_key k [] = refl
map-remove_key k (e ∷ l) = ground (arith, map-remove_key k l)

pub total_size-snoc :
    (l : List CacheEntry) (e : CacheEntry) → total_size (l ++ e ∷ []) ≡ total_size l + e.size
total_size-snoc [] e = omega arith
total_size-snoc (f ∷ l) e = omega (arith, total_size-snoc l e)

pub fit_all :
    (over : ℕ → Bool) (acc : ℕ) (l : List CacheEntry)
    → Mono over
    → over (acc + total_size l) ≡ false
    → fit over acc l ≡ l
unfolding fit
fit_all over acc [] mono h = refl
fit_all over acc (e ∷ l) mono h =
    let here =
      Mono-false over (acc + e.size) (acc + (e.size + total_size l)) mono (omega arith) h in
    let rest : over (acc + e.size + total_size l) ≡ false = rw add_assoc h in
    rw here (ap (◌∷◌ e) (fit_all over (acc + e.size) l mono rest))

pub fit-snoc :
    (over : ℕ → Bool) (acc : ℕ) (l : List CacheEntry) (e : CacheEntry)
    → over (acc + total_size (l ++ e ∷ [])) ≡ true
    → fit over acc (l ++ e ∷ []) ≡ fit over acc l
unfolding fit
fit-snoc over acc [] e h = let full : over (acc + e.size) ≡ true = rw add-zero at h in rw full
fit-snoc over acc (f ∷ l) e h =
    let rest : over (acc + f.size + total_size (l ++ e ∷ [])) ≡ true = rw add_assoc h in
    rw (fit-snoc over (acc + f.size) l e rest)

-- What is kept fits, unless nothing would.
pub fit_within :
    (over : ℕ → Bool) (acc : ℕ) (l : List CacheEntry)
    → over acc ≡ false
    → over (acc + total_size (fit over acc l)) ≡ false
unfolding fit
fit_within over acc [] h = rw add-zero h
fit_within over acc (e ∷ l) h = elim (Bool-cases (over (acc + e.size))) [
  | inl full ↦ rw full (rw add-zero h)
  | inr free ↦ rw free (rw (← add_assoc) (fit_within over (acc + e.size) l free))
]

pub fit_none :
    (over : ℕ → Bool) (acc : ℕ) (l : List CacheEntry)
    → Mono over
    → over acc ≡ true
    → fit over acc l ≡ []
unfolding fit
fit_none over acc [] mono h = refl
fit_none over acc (e ∷ l) mono h = rw (mono acc (acc + e.size) (omega arith) h)
