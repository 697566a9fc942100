-- ===== src/Base/Sort.antt =====
-- Selection and stable sorting, as SQL's WHERE and ORDER BY and Go's `sort.SliceStable` do them.
use Prim.Native.String
use Prim.Native.String.{String}
use Prim.Native.Nat.{Ordering}
use mathlib.Core.Path.{◌≡◌, refl}
use mathlib.Core.Logic.{◌⊎◌, inl, inr}
use mathlib.Core.Bool.{Bool, true, false}
use mathlib.Core.List.{List, [], ◌∷◌}
use vessica_knowledge_server.Base.Lists.{All}
use vessica_knowledge_server.Base.Tests.{if◌then◌else◌, Bool-cases}

-- `a < b` on texts, by bytes.
abbrev pub text_lt : String → String → Bool
text_lt a b = elim (String.compare a b) [ Ordering.lt ↦ true | _ ↦ false ]

module _ {A : Type 0} where
  unfoldable pub select : (A → Bool) → List A → List A
  select p [] = []
  select p (x ∷ xs) = let rest = select p xs in if p x then x ∷ rest else rest

  -- An element goes before the first one that is not less than it.
  unfoldable pub insert_by : (A → A → Bool) → A → List A → List A
  insert_by less x [] = x ∷ []
  insert_by less x (y ∷ ys) =
      let rest = insert_by less x ys in if less y x then y ∷ rest else x ∷ y ∷ ys

  unfoldable pub sort_by : (A → A → Bool) → List A → List A
  unfolding insert_by
  sort_by less [] = []
  sort_by less (x ∷ xs) = insert_by less x (sort_by less xs)

  -- `x` is an element of the list.
  abbrev pub Member : A → List A → Type 0
  Member x [] = ⊥
  Member x (y ∷ ys) = (y ≡ x) ⊎ Member x ys

  -- No element is less than one before it.
  abbrev pub IsSorted : (A → A → Bool) → List A → Type 0
  IsSorted less [] = Unit
  IsSorted less (x ∷ xs) = All (λ y. less y x ≡ false) xs × IsSorted less xs

  pub All-map : (P Q : A → Type 0) → ((x : A) → P x → Q x) → (xs : List A) → All P xs → All Q xs
  All-map P Q f [] h = tt
  All-map P Q f (x ∷ xs) h = (f x h.0, All-map P Q f xs h.1)

  pub All-member : (P : A → Type 0) (x : A) (xs : List A) → All P xs → Member x xs → P x
  All-member P x [] h m = elim m [ ]
  All-member P x (y ∷ ys) h (inl e) = rw (← e) h.0
  All-member P x (y ∷ ys) h (inr m) = All-member P x ys h.1 m

  pub All-self : (xs : List A) → All (λ x. Member x xs) xs
  All-self [] = tt
  All-self (x ∷ xs) = (
    inl refl,
    All-map (λ y. Member y xs) (λ y. Member y (x ∷ xs)) (λ y m. inr m) xs (All-self xs),
  )

module _ {A : Type 0} (p : A → Bool) where
  pub All-select : (P : A → Type 0) (xs : List A) → All P xs → All P (select p xs)
  unfolding select
  All-select P [] h = tt
  All-select P (x ∷ xs) h = elim (Bool-cases (p x)) [
    | inl e ↦ rw e (h.0, All-select P xs h.1)
    | inr e ↦ rw e (All-select P xs h.1)
  ]

  -- What is selected passes.
  pub select-All : (xs : List A) → All (λ x. p x ≡ true) (select p xs)
  unfolding select
  select-All [] = tt
  select-All (x ∷ xs) = elim (Bool-cases (p x)) [
    | inl e ↦ rw e (e, select-All xs)
    | inr e ↦ rw e (select-All xs)
  ]

  pub Member-select : (x : A) (xs : List A) → p x ≡ true → Member x xs → Member x (select p xs)
  unfolding select
  Member-select x [] e m = m
  Member-select x (y ∷ ys) e (inl same) =
      let passes : p y ≡ true = rw same e in rw passes (inl same)
  Member-select x (y ∷ ys) e (inr m) = elim (Bool-cases (p y)) [
    | inl f ↦ rw f (inr (Member-select x ys e m))
    | inr f ↦ rw f (Member-select x ys e m)
  ]

  selected_first :
      (x y : A) (ys : List A)
      → p y ≡ true
      → (Member x (select p ys) → Member x ys × (p x ≡ true))
      → (y ≡ x) ⊎ Member x (select p ys)
      → ((y ≡ x) ⊎ Member x ys) × (p x ≡ true)
  selected_first x y ys f ih (inl same) = (inl same, rw (← same) f)
  selected_first x y ys f ih (inr m) = let (k, e) = ih m in (inr k, e)

  -- What is selected is an element that passes.
  pub select-Member : (x : A) (xs : List A) → Member x (select p xs) → Member x xs × (p x ≡ true)
  unfolding select
  select-Member x [] m = elim m [ ]
  select-Member x (y ∷ ys) m = elim (Bool-cases (p y)) [
    | inl f ↦ selected_first x y ys f (select-Member x ys) (rw f at m)
    | inr f ↦ let (k, e) = select-Member x ys (rw f at m) in (inr k, e)
  ]

module _ {A : Type 0} (less : A → A → Bool) where
  All-insert_by :
      (P : A → Type 0) (x : A) (xs : List A) → P x → All P xs → All P (insert_by less x xs)
  unfolding insert_by
  All-insert_by P x [] h k = (h, tt)
  All-insert_by P x (y ∷ ys) h k = elim (Bool-cases (less y x)) [
    | inl e ↦ rw e (k.0, All-insert_by P x ys h k.1)
    | inr e ↦ rw e (h, k)
  ]

  pub All-sort_by : (P : A → Type 0) (xs : List A) → All P xs → All P (sort_by less xs)
  unfolding sort_by
  All-sort_by P [] h = tt
  All-sort_by P (x ∷ xs) h = All-insert_by P x (sort_by less xs) h.0 (All-sort_by P xs h.1)

  Member-insert_by :
      (x z : A) (xs : List A) → (x ≡ z) ⊎ Member z xs → Member z (insert_by less x xs)
  unfolding insert_by
  Member-insert_by x z [] m = m
  Member-insert_by x z (y ∷ ys) (inl same) = elim (Bool-cases (less y x)) [
    | inl e ↦ rw e (inr (Member-insert_by x z ys (inl same)))
    | inr e ↦ rw e (inl same)
  ]
  Member-insert_by x z (y ∷ ys) (inr (inl same)) = elim (Bool-cases (less y x)) [
    | inl e ↦ rw e (inl same)
    | inr e ↦ rw e (inr (inl same))
  ]
  Member-insert_by x z (y ∷ ys) (inr (inr m)) = elim (Bool-cases (less y x)) [
    | inl e ↦ rw e (inr (Member-insert_by x z ys (inr m)))
    | inr e ↦ rw e (inr (inr m))
  ]

  pub Member-sort_by : (z : A) (xs : List A) → Member z xs → Member z (sort_by less xs)
  unfolding sort_by
  Member-sort_by z [] m = m
  Member-sort_by z (x ∷ xs) (inl e) = Member-insert_by x z (sort_by less xs) (inl e)
  Member-sort_by z (x ∷ xs) (inr m) =
      Member-insert_by x z (sort_by less xs) (inr (Member-sort_by z xs m))

  insert_by-first :
      (x : A) (xs : List A) → All (λ y. less y x ≡ false) xs → insert_by less x xs ≡ x ∷ xs
  unfolding insert_by
  insert_by-first x [] h = refl
  insert_by-first x (y ∷ ys) h = rw h.0 refl

  -- A list in order stays what it is.
  pub sort_by-IsSorted : (xs : List A) → IsSorted less xs → sort_by less xs ≡ xs
  unfolding sort_by
  sort_by-IsSorted [] h = refl
  sort_by-IsSorted (x ∷ xs) h = rw (sort_by-IsSorted xs h.1) (insert_by-first x xs h.0)

  passed_over :
      (x y z : A) (ys : List A)
      → (Member z (insert_by less x ys) → (x ≡ z) ⊎ Member z ys)
      → (y ≡ z) ⊎ Member z (insert_by less x ys)
      → (x ≡ z) ⊎ ((y ≡ z) ⊎ Member z ys)
  passed_over x y z ys ih (inl same) = inr (inl same)
  passed_over x y z ys ih (inr m) = elim (ih m) [ inl same ↦ inl same | inr k ↦ inr (inr k) ]

  -- An element of a sorted list is one of the list.
  insert_by-Member :
      (x z : A) (xs : List A) → Member z (insert_by less x xs) → (x ≡ z) ⊎ Member z xs
  unfolding insert_by
  insert_by-Member x z [] m = m
  insert_by-Member x z (y ∷ ys) m = elim (Bool-cases (less y x)) [
    | inl e ↦ passed_over x y z ys (insert_by-Member x z ys) (rw e at m)
    | inr e ↦ rw e at m
  ]

  pub sort_by-Member : (z : A) (xs : List A) → Member z (sort_by less xs) → Member z xs
  unfolding sort_by
  sort_by-Member z [] m = m
  sort_by-Member z (x ∷ xs) m = elim (insert_by-Member x z (sort_by less xs) m) [
    | inl same ↦ inl same
    | inr k ↦ inr (sort_by-Member z xs k)
  ]
