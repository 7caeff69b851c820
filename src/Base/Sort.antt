-- ===== src/Base/Sort.antt =====
-- sort.Strings: texts in the order of their bytes. The result depends on which texts there are, not
-- on the order in which they come.
use smart_proxy.Base.{
  ◌≡◌, refl, ◌∙◌, ◌⊎◌, inl, inr, Bool, true, false, List, [], ◌∷◌, arith, ltb, if◌then◌else◌,
  nat_eq, text_eq,
}
use smart_proxy.Base.Text.{Text}
use mathlib.Core.List.{Perm, Permᴰ}
use mathlib.Core.Logic.{∥∥₁_elim}

-- a ≤ b for Go strings
pub text_le : Text → Text → Bool
text_le [] b = true
text_le (x ∷ a) [] = false
text_le (x ∷ a) (y ∷ b) = if ltb x y then true else if ltb y x then false else text_le a b

text_le_total : (a b : Text) → (text_le a b ≡ true) ⊎ (text_le b a ≡ true)
unfolding text_le
text_le_total [] b = inl refl
text_le_total (x ∷ a) [] = inr refl
text_le_total (x ∷ a) (y ∷ b) = ground (arith, text_le_total a b)

text_le_antisymm : (a b : Text) → text_le a b ≡ true → text_le b a ≡ true → a ≡ b
unfolding text_le
text_le_antisymm [] [] h k = refl
text_le_antisymm [] (y ∷ b) h k = cc
text_le_antisymm (x ∷ a) [] h k = cc
text_le_antisymm (x ∷ a) (y ∷ b) h k = ground (arith, text_le_antisymm a b)

text_le_trans : (a b c : Text) → text_le a b ≡ true → text_le b c ≡ true → text_le a c ≡ true
unfolding text_le
text_le_trans [] b c h k = refl
text_le_trans (x ∷ a) [] c h k = cc
text_le_trans (x ∷ a) (y ∷ b) [] h k = cc
text_le_trans (x ∷ a) (y ∷ b) (z ∷ c) h k = ground (arith, text_le_trans a b c)

insert_text : Text → List Text → List Text
insert_text a [] = a ∷ []
insert_text a (b ∷ l) = if text_le a b then a ∷ b ∷ l else b ∷ insert_text a l

unfoldable pub sort_texts : List Text → List Text
unfolding insert_text text_le
sort_texts [] = []
sort_texts (a ∷ l) = insert_text a (sort_texts l)

insert_text_comm :
    (a b : Text) (l : List Text) → insert_text a (insert_text b l) ≡ insert_text b (insert_text a l)
unfolding insert_text
insert_text_comm a b [] = ground (arith, text_le_total a b, text_le_antisymm a b)
insert_text_comm a b (c ∷ l) = ground (
  arith,
  text_le_total a b,
  text_le_antisymm a b,
  text_le_trans a b c,
  text_le_trans b a c,
  text_le_trans a c b,
  text_le_trans b c a,
  text_le_total a c,
  text_le_total b c,
  insert_text_comm a b l,
)

sort_texts_permᴰ : {xs ys : List Text} → Permᴰ xs ys → sort_texts xs ≡ sort_texts ys
unfolding sort_texts
sort_texts_permᴰ Permᴰ.nil = refl
sort_texts_permᴰ (Permᴰ.cons {l₁ = xs} {l₂ = ys} e p) = cc (e, sort_texts_permᴰ p)
sort_texts_permᴰ (Permᴰ.swap {a = a} {b = b} {l = l} e f) =
    rw (← e, ← f) (insert_text_comm a b (sort_texts l))
sort_texts_permᴰ (Permᴰ.trans p q) = sort_texts_permᴰ p ∙ sort_texts_permᴰ q

texts_set : IsSet (List Text)
texts_set = hlevel

-- Sorting forgets the order.
pub sort_texts_perm : {xs ys : List Text} → Perm xs ys → sort_texts xs ≡ sort_texts ys
sort_texts_perm p = ∥∥₁_elim p (texts_set _ _) sort_texts_permᴰ
