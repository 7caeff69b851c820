-- ===== src/Base/Clean.antt =====
-- Texts that lack a byte, cleaned paths, and the parts of a split text.
use smart_proxy.Base.{
  ℕ, ◌≡◌, refl, ap, ◌∙◌, Bool, true, not, List, [], ◌∷◌, ◌++◌, arith, nat_beq, nat_beq_iff, every,
  Bool-cases, inl, inr,
}
use smart_proxy.Base.Text.{Text, strip_query, trim_right, drop_front, clean_path, split, join}
use mathlib.Core.List.{reverse, reverse-cons, reverse-reverse, append_assoc}

unfoldable pub lacks : ℕ → Text → Bool
unfolding every
lacks c s = every (λ d. not (nat_beq d c)) s

pub lacks-append :
    (c : ℕ) (s t : Text) → lacks c s ≡ true → lacks c t ≡ true → lacks c (s ++ t) ≡ true
unfolding lacks every
lacks-append c [] t h k = k
lacks-append c (d ∷ s) t h k = ground (arith, lacks-append c s t)

pub lacks-reverse : (c : ℕ) (s : Text) → lacks c s ≡ true → lacks c (reverse s) ≡ true
unfolding lacks every
lacks-reverse c [] h = refl
lacks-reverse c (d ∷ s) h =
    rw (reverse-cons d s)
      (lacks-append c (reverse s) (d ∷ []) (lacks-reverse c s (ground arith)) (ground arith))

lacks-drop_front : (b c : ℕ) (s : Text) → lacks c s ≡ true → lacks c (drop_front b s) ≡ true
unfolding lacks every drop_front
lacks-drop_front b c [] h = refl
lacks-drop_front b c (d ∷ s) h = ground (arith, lacks-drop_front b c s)

lacks-trim_right : (b c : ℕ) (s : Text) → lacks c s ≡ true → lacks c (trim_right s b) ≡ true
unfolding trim_right
lacks-trim_right b c s h =
    lacks-reverse c (drop_front b (reverse s))
      (lacks-drop_front b c (reverse s) (lacks-reverse c s h))

lacks-strip_query : (s : Text) → lacks b'?' (strip_query s) ≡ true
unfolding lacks every strip_query
lacks-strip_query [] = refl
lacks-strip_query (c ∷ s) = ground (arith, lacks-strip_query s)

strip_query_fixed : (s : Text) → lacks b'?' s ≡ true → strip_query s ≡ s
unfolding lacks every strip_query
strip_query_fixed [] h = refl
strip_query_fixed (c ∷ s) h = ground (arith, strip_query_fixed s)

drop_front_idem : (b : ℕ) (s : Text) → drop_front b (drop_front b s) ≡ drop_front b s
unfolding drop_front
drop_front_idem b [] = refl
drop_front_idem b (d ∷ s) = ground (arith, drop_front_idem b s)

trim_right_idem : (s : Text) (b : ℕ) → trim_right (trim_right s b) b ≡ trim_right s b
unfolding trim_right
trim_right_idem s b =
    ap (λ t. reverse (drop_front b t)) (reverse-reverse (drop_front b (reverse s)))
    ∙ ap reverse (drop_front_idem b (reverse s))

-- A cleaned path is clean.
pub clean_path_idem : (path : Text) → clean_path (clean_path path) ≡ clean_path path
unfolding clean_path
clean_path_idem path =
    ap (λ s. trim_right s b'/')
      (strip_query_fixed (trim_right (strip_query path) b'/')
        (lacks-trim_right b'/' b'?' (strip_query path) (lacks-strip_query path)))
    ∙ trim_right_idem (strip_query path) b'/'

-- A split text has at least one part, and no part has the separator.
pub split_shape :
    (s : Text) (c : ℕ)
    → (p : Text) × (ps : List Text) × (split s c ≡ p ∷ ps) × (every (lacks c) (p ∷ ps) ≡ true)
unfolding split every lacks
split_shape [] c = ([], [], refl, refl)
split_shape (d ∷ s) c =
    let (p, ps, e, h) = split_shape s c in
    elim (Bool-cases (nat_beq d c)) [
      | inl same ↦ ([], p ∷ ps, rw (e, same, split) refl, h)
      | inr other ↦ (d ∷ p, ps, rw (e, other, split) refl, ground (arith, h))
    ]

pub split_lacking : (p : Text) (c : ℕ) → lacks c p ≡ true → split p c ≡ p ∷ []
unfolding split lacks every
split_lacking [] c h = refl
split_lacking (d ∷ p) c h =
    let rest : split p c ≡ p ∷ [] = split_lacking p c (ground arith) in ground (arith, rest)

split-append : (p t : Text) (c : ℕ) → lacks c p ≡ true → split (p ++ c ∷ t) c ≡ p ∷ split t c
unfolding split lacks every
split-append [] t c h =
    let (q, qs, e, _) = split_shape t c in rw (e, split) (ground (arith, nat_beq_iff c c))
split-append (d ∷ p) t c h =
    let rest : split (p ++ c ∷ t) c ≡ p ∷ split t c = split-append p t c (ground arith) in
    ground (arith, rest)

-- What is joined from parts without the separator splits into them again.
pub split-join :
    (p : Text) (ps : List Text) (c : ℕ)
    → every (lacks c) (p ∷ ps) ≡ true
    → split (join (p ∷ ps) (c ∷ [])) c ≡ p ∷ ps
unfolding join every
split-join p [] c h = split_lacking p c (ground arith)
split-join p (q ∷ ps) c h =
    let head : split (p ++ (c ∷ []) ++ join (q ∷ ps) (c ∷ [])) c
        ≡ p ∷ split (join (q ∷ ps) (c ∷ [])) c =
      rw (append_assoc p (c ∷ []) (join (q ∷ ps) (c ∷ [])))
        (split-append p (join (q ∷ ps) (c ∷ [])) c (ground arith)) in
    head ∙ ap (λ rest. p ∷ rest) (split-join q ps c (ground arith))
