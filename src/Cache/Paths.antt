-- ===== src/Cache/Paths.antt =====
-- Texts split at slashes and trimmed of them, as internal/cache/invalidation.go does.
use smart_proxy.Base.{
  ℕ, ◌+◌, ◌≡◌, refl, sym, ap, ◌∙◌, ◌≢◌, inl, inr, true, List, [], ◌∷◌, ◌++◌, arith, nat_eq, text_eq,
  nat_beq_iff, Bool-cases, length, nat_beq, every,
}
use smart_proxy.Base.Text.{Text}
use smart_proxy.Base.Text.{Text, split, join, trim_right, drop_front, count_byte}
use smart_proxy.Base.Clean.{lacks, lacks-reverse, split_shape, split_lacking}
use mathlib.Core.List.{reverse, reverse-reverse, reverse-append, append_assoc}

join-cons :
    (d : ℕ) (p : Text) (ps : List Text) (sep : Text)
    → join ((d ∷ p) ∷ ps) sep ≡ d ∷ join (p ∷ ps) sep
unfolding join
join-cons d p [] sep = refl
join-cons d p (q ∷ ps) sep = refl

pub join-split : (s : Text) (c : ℕ) → join (split s c) (c ∷ []) ≡ s
unfolding split join
join-split [] c = refl
join-split (d ∷ s) c =
    let (p, ps, e, _) = split_shape s c in
    let rest : join (p ∷ ps) (c ∷ []) ≡ s =
      ap (λ parts. join parts (c ∷ [])) (sym e) ∙ join-split s c in
    elim (Bool-cases (nat_beq d c)) [
      | inl same ↦
          rw (e, same, split)
            (ap (λ t. c ∷ t) rest ∙ ap (λ b. b ∷ s) (sym ((nat_beq_iff d c).0 same)))
      | inr other ↦ rw (e, other, split) (join-cons d p ps (c ∷ []) ∙ ap (λ t. d ∷ t) rest)
    ]

pub length-split : (s : Text) (c : ℕ) → length (split s c) ≡ count_byte s c + 1
unfolding split count_byte
length-split [] c = refl
length-split (d ∷ s) c =
    let (p, ps, e, _) = split_shape s c in
    let rest : length (p ∷ ps) ≡ count_byte s c + 1 = ap length (sym e) ∙ length-split s c in
    rw (e, split) (ground arith)

-- The last segment is the last part.
pub split_last :
    (front last : Text)
    → lacks b'/' last ≡ true
    → split (front ++ b'/' ∷ last) b'/' ≡ split front b'/' ++ last ∷ []
unfolding split
split_last [] last h = rw (split_lacking last b'/' h, split) refl
split_last (d ∷ front) last h =
    let (p, ps, e, _) = split_shape front b'/' in
    let rest : split (front ++ b'/' ∷ last) b'/' ≡ p ∷ (ps ++ last ∷ []) =
      split_last front last h ∙ ap (λ l. l ++ last ∷ []) e in
    rw (e, rest, split) (ground arith)

drop_front-lacks : (c : ℕ) (s t : Text) → lacks c s ≡ true → s ≢ [] → drop_front c (s ++ t) ≡ s ++ t
unfolding drop_front lacks every
drop_front-lacks c [] t h some_byte = absurd (some_byte refl)
drop_front-lacks c (d ∷ s) t h some_byte = ground arith

-- A path that ends in a segment has no slash to trim.
trim_right_segment :
    (s last : Text) → lacks b'/' last ≡ true → last ≢ [] → trim_right (s ++ last) b'/' ≡ s ++ last
unfolding trim_right
trim_right_segment s last h some_byte =
    let turned = reverse-append s last in
    let some_turned : reverse last ≢ [] =
      λ e. some_byte (sym (reverse-reverse last) ∙ ap reverse e) in
    ap (λ t. reverse (drop_front b'/' t)) turned
    ∙ ap reverse (
        drop_front-lacks b'/' (reverse last) (reverse s) (lacks-reverse b'/' last h) some_turned
        ∙ sym turned)
    ∙ reverse-reverse (s ++ last)

pub trim_right_slash : (s : Text) (c : ℕ) → trim_right (s ++ c ∷ []) c ≡ trim_right s c
unfolding trim_right drop_front
trim_right_slash s c = rw (reverse-append s (c ∷ [])) (ground (arith, nat_beq_iff c c))

pub trimmed_segment :
    (front last : Text)
    → lacks b'/' last ≡ true
    → last ≢ []
    → trim_right (front ++ b'/' ∷ last) b'/' ≡ front ++ b'/' ∷ last
trimmed_segment front last h some_byte =
    let regroup = append_assoc front (b'/' ∷ []) last in
    ap (λ t. trim_right t b'/') (sym regroup)
    ∙ trim_right_segment (front ++ b'/' ∷ []) last h some_byte
    ∙ regroup
