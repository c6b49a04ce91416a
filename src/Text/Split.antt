-- ===== src/Text/Split.antt =====
-- What `split` gives on a text that has the separator once, or not at all.
use trust.Prelude.{
  ℕ, suc, ◌+◌, ◌≡◌, refl, List, [], ◌∷◌, ◌++◌, Text, arith, ◌==◌, if◌then◌else◌, length,
}
use trust.Text.{split, prepend, Without}

pub split-Without : (c : ℕ) (s : Text) → Without c s → split c s ≡ s ∷ []
unfolding split
split-Without c [] h = refl
split-Without c (x ∷ s) h = ground (arith, split-Without c s h.1)

pub split-append : (c : ℕ) (s t : Text) → Without c s → split c (s ++ c ∷ t) ≡ s ∷ split c t
unfolding split
split-append c [] t h = ground arith
split-append c (x ∷ s) t h = ground (arith, split-append c s t h.1)

-- How often a character occurs.
unfoldable pub count : ℕ → Text → ℕ
count c [] = 0
count c (x ∷ s) = if x == c then suc (count c s) else count c s

length-prepend_twice :
    (x y : ℕ) (ws : List Text) → length (prepend x (prepend y ws)) ≡ length (prepend y ws)
length-prepend_twice x y [] = refl
length-prepend_twice x y (w ∷ ws) = refl

length-prepend : (c : ℕ) (s : Text) (x : ℕ) → length (prepend x (split c s)) ≡ length (split c s)
unfolding split
length-prepend c [] x = refl
length-prepend c (y ∷ s) x = ground (arith, length-prepend_twice x y (split c s))

pub length-split : (c : ℕ) (s : Text) → length (split c s) ≡ suc (count c s)
unfolding split count
length-split c [] = refl
length-split c (x ∷ s) = ground (arith, length-split c s, length-prepend c s x)

pub count-append : (c : ℕ) (s t : Text) → count c (s ++ t) ≡ count c s + count c t
unfolding count
count-append c [] t = omega arith
count-append c (x ∷ s) t = ground (arith, count-append c s t)
