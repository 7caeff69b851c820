-- ===== src/Base/Text.antt =====
-- Byte strings, with the functions of Go's `strings` package that the program calls.
use smart_proxy.Base.{ap}
use Prim.Native.Nat.{ℕ, suc, ◌+◌}
use Prim.Native.Char.{code}
use Prim.Native.String.{String}
use mathlib.Core.Path.{◌≡◌, refl}
use mathlib.Core.Bool.{Bool, true, false, ◌&&◌}
use mathlib.Core.List.{List, [], ◌∷◌, ◌++◌, map, reverse}
use mathlib.Core.Option.{Option, none, some}
use native.Mathlib.Omega.{arith}
use smart_proxy.Base.Tests.{leb, nat_beq, if◌then◌else◌, nat_eq, text_eq}
use smart_proxy.Base.Lists.{length, drop}

-- A Go string: its bytes.
abbrev pub Text : Type 0
Text = List ℕ

-- The bytes of an ASCII literal.
abbrev pub text : String → Text
text String.[] = []
text (String.◌∷◌ c s) = code c ∷ text s

-- strings.HasPrefix(s, p)
unfoldable pub has_prefix : Text → Text → Bool
has_prefix s [] = true
has_prefix [] (p ∷ ps) = false
has_prefix (c ∷ s) (p ∷ ps) = nat_beq c p && has_prefix s ps

-- strings.HasSuffix(s, p)
unfoldable pub has_suffix : Text → Text → Bool
unfolding has_prefix
has_suffix s p = has_prefix (reverse s) (reverse p)

pub has_prefix-append : (p s : Text) → has_prefix (p ++ s) p ≡ true
unfolding has_prefix
has_prefix-append [] s = refl
has_prefix-append (c ∷ p) s = ground (arith, has_prefix-append p s)

-- What a prefix test says: the rest is what `s[len(p):]` holds.
pub has_prefix_split : (s p : Text) → has_prefix s p ≡ true → s ≡ p ++ drop (length p) s
unfolding has_prefix
has_prefix_split s [] h = refl
has_prefix_split [] (p ∷ ps) h = cc
has_prefix_split (c ∷ s) (p ∷ ps) h = ground (arith, has_prefix_split s ps)

pub has_prefix_trans :
    (s p q : Text) → has_prefix s p ≡ true → has_prefix p q ≡ true → has_prefix s q ≡ true
unfolding has_prefix
has_prefix_trans s p [] h k = refl
has_prefix_trans s [] (c ∷ q) h k = cc
has_prefix_trans [] (b ∷ p) (c ∷ q) h k = cc
has_prefix_trans (a ∷ s) (b ∷ p) (c ∷ q) h k = ground (arith, has_prefix_trans s p q)

-- strings.ToLower on ASCII bytes
unfoldable pub lower_byte : ℕ → ℕ
lower_byte c = if leb b'A' c && leb c b'Z' then c + 32 else c

unfoldable pub to_lower : Text → Text
unfolding lower_byte
to_lower = map lower_byte

-- strings.IndexByte(s, c), with `none` for -1
unfoldable pub index_byte : Text → ℕ → Option ℕ
index_byte [] c = none
index_byte (d ∷ s) c =
    if nat_beq d c then some 0 else elim (index_byte s c) [ none ↦ none | some i ↦ some (suc i) ]

-- strings.Index(s, sub), with `none` for -1
unfoldable pub index : Text → Text → Option ℕ
unfolding has_prefix
index [] sub = if has_prefix [] sub then some 0 else none
index (d ∷ s) sub =
    if has_prefix (d ∷ s) sub
    then some 0
    else elim (index s sub) [ none ↦ none | some i ↦ some (suc i) ]

-- strings.Split(s, string(c)) for one byte c
unfoldable pub split : Text → ℕ → List Text
split [] c = [] ∷ []
split (d ∷ s) c = elim (split s c) [
  | [] ↦ (d ∷ []) ∷ []
  | part ∷ parts ↦ if nat_beq d c then [] ∷ part ∷ parts else (d ∷ part) ∷ parts
]

-- strings.Join(parts, sep)
unfoldable pub join : List Text → Text → Text
join [] sep = []
join (part ∷ []) sep = part
join (part ∷ next ∷ parts) sep = part ++ sep ++ join (next ∷ parts) sep

-- strings.Count(s, string(c)) for one byte c
unfoldable pub count_byte : Text → ℕ → ℕ
count_byte [] c = 0
count_byte (d ∷ s) c = if nat_beq d c then suc (count_byte s c) else count_byte s c

unfoldable pub drop_front : ℕ → Text → Text
drop_front c [] = []
drop_front c (d ∷ s) = if nat_beq d c then drop_front c s else d ∷ s

-- strings.TrimRight(s, string(c)) for one byte c
unfoldable pub trim_right : Text → ℕ → Text
unfolding drop_front
trim_right s c = reverse (drop_front c (reverse s))

-- `path[:idx]` where `idx` is the place of the first `?`, and the whole path where there is none
unfoldable pub strip_query : Text → Text
strip_query [] = []
strip_query (c ∷ s) = if nat_beq c b'?' then [] else c ∷ strip_query s

-- The two steps with which the endpoint classifier and the PII matcher clean a request path.
unfoldable pub clean_path : Text → Text
unfolding strip_query trim_right
clean_path path = trim_right (strip_query path) b'/'

strip_query-query : (path query : Text) → strip_query (path ++ b'?' ∷ query) ≡ strip_query path
unfolding strip_query
strip_query-query [] query = refl
strip_query-query (c ∷ path) query = ground (arith, strip_query-query path query)

-- The query string plays no part.
pub clean_path-query : (path query : Text) → clean_path (path ++ b'?' ∷ query) ≡ clean_path path
unfolding clean_path
clean_path-query path query = ap (λ p. trim_right p b'/') (strip_query-query path query)
