-- ===== src/Base/Texts.antt =====
-- The order of texts, by the numbers of their characters, as a database compares them.
use Prim.Native.Nat.{ℕ, Ordering}
use Prim.Native.Char.{Char, code}
use Prim.Native.String
use Prim.Native.String.{String, compare as compare_texts, then}
use mathlib.Core.Path.{◌≡◌, refl, ap, sym, ◌∙◌}
use mathlib.Core.Bool.{Bool, true, false, ◌&&◌, ◌||◌}
use mathlib.Core.Bool.{false≢true}
use native.Mathlib.Omega.{arith}
use vessica_knowledge_server.Base.Tests.{ltb, nat_eq, Bool-cases}
use mathlib.Core.Logic.{inl, inr}
use vessica_knowledge_server.Base.Sort.{text_lt}

is_lt : Ordering → Bool
is_lt o = elim o [ Ordering.lt ↦ true | _ ↦ false ]

is_lt-then :
    (a : Ordering) (b : Ordering)
    → is_lt (then a b) ≡ (
        (elim a [ Ordering.lt ↦ true | _ ↦ false ])
        || ((elim a [ Ordering.eq ↦ true | _ ↦ false ]) && is_lt b))
unfolding is_lt
is_lt-then Ordering.lt b = refl
is_lt-then Ordering.eq b = refl
is_lt-then Ordering.gt b = refl

text_lt-cons :
    (c d : Char) (s t : String)
    → text_lt (String.◌∷◌ c s) (String.◌∷◌ d t)
      ≡ (ltb (code c) (code d) || (nat_eq (code c) (code d) && text_lt s t))
unfolding is_lt
text_lt-cons c d s t =
    ap is_lt (λ i. String.compare.cons-cons c d s t i) ∙ is_lt-then _ (compare_texts s t)

-- The empty text is before every other one, and none is before it.
text_lt-nil : (s : String) → text_lt s String.[] ≡ false
unfolding is_lt
text_lt-nil String.[] = refl
text_lt-nil (String.◌∷◌ c s) = ap is_lt (λ i. String.compare.cons-nil c s i)

text_lt-first : (c : Char) (s : String) → text_lt String.[] (String.◌∷◌ c s) ≡ true
unfolding is_lt
text_lt-first c s = ap is_lt (λ i. String.compare.nil-cons c s i)

-- The comparison of two first characters and of what is behind them.
less : ℕ → ℕ → Bool → Bool
less m n behind = ltb m n || (nat_eq m n && behind)

less_trans :
    (l m n : ℕ) (p q r : Bool)
    → (p ≡ false → q ≡ false → r ≡ false)
    → less m l p ≡ false
    → less n m q ≡ false
    → less n l r ≡ false
unfolding less
less_trans l m n true true r f h k = ground (arith, h, k)
less_trans l m n true false r f h k = ground (arith, h, k)
less_trans l m n false true r f h k = ground (arith, h, k)
less_trans l m n false false r f h k = let e = f refl refl in ground (arith, h, k, e)

less_asym : (m n : ℕ) (p q : Bool) → (p ≡ true → q ≡ false) → less m n p ≡ true → less n m q ≡ false
unfolding less
less_asym m n true q f h = let e = f refl in ground (arith, h, e)
less_asym m n false q f h = ground (arith, h)

-- A text that is not before a second, which is not before a third, is not before the third.
pub text_lt_trans :
    (a b c : String) → text_lt b a ≡ false → text_lt c b ≡ false → text_lt c a ≡ false
unfolding less
text_lt_trans String.[] b c h k = text_lt-nil c
text_lt_trans (String.◌∷◌ c s) String.[] u h k = absurd (false≢true (sym h ∙ text_lt-first c s))
text_lt_trans (String.◌∷◌ c s) (String.◌∷◌ d t) String.[] h k =
    absurd (false≢true (sym k ∙ text_lt-first d t))
text_lt_trans (String.◌∷◌ c s) (String.◌∷◌ d t) (String.◌∷◌ e u) h k =
    text_lt-cons e c u s
    ∙ less_trans (code c) (code d) (code e) _ _ _ (text_lt_trans s t u)
        (sym (text_lt-cons d c t s) ∙ h) (sym (text_lt-cons e d u t) ∙ k)

-- Of two texts, one at most is before the other.
pub text_lt_asym : (a b : String) → text_lt a b ≡ true → text_lt b a ≡ false
unfolding less
text_lt_asym String.[] b h = text_lt-nil b
text_lt_asym (String.◌∷◌ c s) String.[] h =
    absurd (false≢true (sym (text_lt-nil (String.◌∷◌ c s)) ∙ h))
text_lt_asym (String.◌∷◌ c s) (String.◌∷◌ d t) h =
    text_lt-cons d c t s
    ∙ less_asym (code c) (code d) _ _ (text_lt_asym s t) (sym (text_lt-cons c d s t) ∙ h)

-- No text is before itself.
pub text_lt_irrefl : (a : String) → text_lt a a ≡ false
text_lt_irrefl a = elim (Bool-cases (text_lt a a)) [
  | inl before ↦ text_lt_asym a a before
  | inr same ↦ same
]
