-- ===== src/Metrics/Sse/Split.antt =====
-- The first blank line of a buffer, when bytes are added to it.
use mathlib.Core.Option.{some-injective}
use inference_x.Prelude.{
  ℕ, suc, ◌≤◌, ◌≡◌, refl, ap, subst, Bool, true, false, ◌&&◌, Option, none, some, List, [], ◌∷◌,
  ◌++◌, length, arith,
}
use inference_x.Metrics.Sse.{split_first, is_newline, cut}

cut-append :
    (t : Bool) (a : ℕ) (rest ys : List ℕ) (later more : Option (List ℕ × List ℕ)) (l r : List ℕ)
    → ((l' r' : List ℕ) → later ≡ some (l', r') → more ≡ some (l', r' ++ ys))
    → cut t a rest later ≡ some (l, r)
    → cut t a (rest ++ ys) more ≡ some (l, r ++ ys)
cut-append true a rest ys later more l r ih e =
    ap (λ p. some (p.0, p.1 ++ ys)) (some-injective ([], rest) (l, r) e)
cut-append false a rest ys none more l r ih e = absurd (ground (arith, e))
cut-append false a rest ys (some (l', r')) more l r ih e =
    rw (ih l' r' refl) (ap (λ p. some (p.0, p.1 ++ ys)) (some-injective (a ∷ l', r') (l, r) e))

pub split_first-append :
    (xs ys l r : List ℕ) → split_first xs ≡ some (l, r) → split_first (xs ++ ys) ≡ some (l, r ++ ys)
unfolding split_first
split_first-append [] ys l r e = absurd (ground (arith, e))
split_first-append (a ∷ []) ys l r e = absurd (ground (arith, e))
split_first-append (a ∷ b ∷ rest) ys l r e =
    cut-append (is_newline a && is_newline b) a rest ys (split_first (b ∷ rest))
      (split_first (b ∷ (rest ++ ys))) l r (split_first-append (b ∷ rest) ys) e

cut-shorter :
    (t : Bool) (a n : ℕ) (rest : List ℕ) (later : Option (List ℕ × List ℕ)) (l r : List ℕ)
    → length rest ≤ n
    → ((l' r' : List ℕ) → later ≡ some (l', r') → length r' ≤ n)
    → cut t a rest later ≡ some (l, r)
    → length r ≤ n
cut-shorter true a n rest later l r h ih e =
    subst (λ p. length (p.1) ≤ n) (some-injective ([], rest) (l, r) e) h
cut-shorter false a n rest none l r h ih e = absurd (ground (arith, e))
cut-shorter false a n rest (some (l', r')) l r h ih e =
    subst (λ p. length (p.1) ≤ n) (some-injective (a ∷ l', r') (l, r) e) (ih l' r' refl)

pub split_first-shorter :
    (n : ℕ) (xs l r : List ℕ) → length xs ≤ suc n → split_first xs ≡ some (l, r) → length r ≤ n
unfolding split_first
split_first-shorter n [] l r h e = absurd (ground (arith, e))
split_first-shorter n (a ∷ []) l r h e = absurd (ground (arith, e))
split_first-shorter n (a ∷ b ∷ rest) l r h e =
    cut-shorter (is_newline a && is_newline b) a n rest (split_first (b ∷ rest)) l r (omega arith)
      (λ l' r'. split_first-shorter n (b ∷ rest) l' r' (omega arith)) e

pub split_first-empty : (xs : List ℕ) → length xs ≤ 0 → split_first xs ≡ none
unfolding split_first
split_first-empty [] h = refl
split_first-empty (x ∷ xs) h = absurd (omega arith)
