-- ===== src/Cache/Stale.antt =====
-- internal/cache/invalidation.go: the answers that a write made stale, with the resource of a path
-- described apart from `ExtractResourcePrefix`.
use smart_proxy.Base.{
  ℕ, ◌+◌, ◌-◌, ◌≤◌, ◌<◌, ◌≡◌, refl, ap, ◌∙◌, ◌≢◌, true, false, Option, none, List, [], ◌∷◌, ◌++◌,
  arith, leb, if◌then◌else◌, nat_eq, text_eq, length, take, length-append, take-append,
}
use smart_proxy.Base.Text.{Text, text, has_prefix}
use smart_proxy.Base.Dict.{Dict}
use smart_proxy.Base.Text.{Text, text, has_prefix, has_prefix-append, split, join, count_byte}
use smart_proxy.Base.Dict.{Dict}
use smart_proxy.Base.Clean.{lacks}
use smart_proxy.Cache.Paths.{
  join-split, length-split, split_last, trim_right_slash, trimmed_segment,
}
use smart_proxy.Cache.Memory.{MemoryCache, get}
use smart_proxy.Cache.Memory.Invariant.{IsConsistent}
use smart_proxy.Cache.Keys.{generate_cache_key}
use smart_proxy.Cache.Invalidation.{extract_resource_prefix, invalidate_on_mutation}
use smart_proxy.Cache.Isolation.{invalidate_on_mutation_matching}

-- The resource that a path belongs to. A last segment is the name of an item where the path before
-- the last slash has three slashes or more, and then the resource is the collection that this path
-- is; a path with fewer is its own resource; slashes at the end make no difference.
pub data Resource : Text → Text → Type 0 where
  item :
      (collection id : Text)
      → 3 ≤ count_byte collection b'/'
      → id ≢ []
      → lacks b'/' id ≡ true
      → Resource (collection ++ b'/' ∷ id) collection
  whole :
      (front last : Text)
      → count_byte front b'/' < 3
      → last ≢ []
      → lacks b'/' last ≡ true
      → Resource (front ++ b'/' ∷ last) (front ++ b'/' ∷ last)
  slash : (path resource : Text) → Resource path resource → Resource (path ++ b'/' ∷ []) resource

-- what is left of a path without slashes at its end
abbrev cut : Text → Text
cut trimmed =
    if leb (length (split trimmed b'/')) 4
    then trimmed
    else join (take (length (split trimmed b'/') - 1) (split trimmed b'/')) (text "/")

cut_item :
    (collection id : Text)
    → 3 ≤ count_byte collection b'/'
    → lacks b'/' id ≡ true
    → cut (collection ++ b'/' ∷ id) ≡ collection
cut_item collection id many h =
    let parts = split collection b'/' in
    let more : length (parts ++ id ∷ []) ≡ length parts + 1 = length-append parts (id ∷ []) in
    let long : leb (length (parts ++ id ∷ [])) 4 ≡ false =
      ground (arith, length-split collection b'/') in
    let shorter : length (parts ++ id ∷ []) - 1 ≡ length parts = omega arith in
    rw (split_last collection id h, long, shorter, take-append parts (id ∷ []))
      (join-split collection b'/')

cut_whole :
    (front last : Text)
    → count_byte front b'/' < 3
    → lacks b'/' last ≡ true
    → cut (front ++ b'/' ∷ last) ≡ front ++ b'/' ∷ last
cut_whole front last few h =
    let parts = split front b'/' in
    let short : leb (length (parts ++ last ∷ [])) 4 ≡ true =
      ground (arith, length-split front b'/', length-append parts (last ∷ [])) in
    rw (split_last front last h, short) refl

-- The code's prefix is the resource.
extract_resource_prefix-Resource :
    {path resource : Text} → Resource path resource → extract_resource_prefix path ≡ resource
unfolding extract_resource_prefix
extract_resource_prefix-Resource (item collection id many some_byte h) =
    ap cut (trimmed_segment collection id h some_byte) ∙ cut_item collection id many h
extract_resource_prefix-Resource (whole front last few some_byte h) =
    ap cut (trimmed_segment front last h some_byte) ∙ cut_whole front last few h
extract_resource_prefix-Resource (slash path resource r) =
    ap cut (trim_right_slash path b'/') ∙ extract_resource_prefix-Resource r

-- A write removes what it made stale: after a request that is no GET, in a cache whose parts agree, no
-- GET of the same merchant finds an answer for the resource that the written path belongs to, nor for
-- a path that begins with it, such as that of any item of the collection, whatever its query and
-- suffix. The resource of a path whose last segment, not empty, stands behind four slashes or more is
-- the collection before it; where it stands behind one to three slashes, the path is its own resource.
pub invalidate_on_mutation_drops :
    (parse_query : Text → Option (Dict Text (List Text))) (mc : MemoryCache)
    (m method path resource rest query suffix : Text) (now : ℕ)
    → IsConsistent mc
    → method ≢ text "GET"
    → Resource path resource
    → (get
        (invalidate_on_mutation mc m method path)
        (generate_cache_key parse_query m (text "GET") (resource ++ rest) query suffix)
        now).1
      ≡ none
invalidate_on_mutation_drops parse_query mc m method path resource rest query suffix now w written
      r =
    invalidate_on_mutation_matching parse_query mc m method path (resource ++ rest) query suffix now
      w written
      (ap (has_prefix (resource ++ rest)) (extract_resource_prefix-Resource r)
        ∙ has_prefix-append resource rest)
