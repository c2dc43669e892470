-- ===== src/Prelude/Lists.antt =====
-- Lists measured by native numbers, Boolean filters, predicates by recursion, and dictionaries with
-- text keys.
use Prim.Native.Nat.{ℕ, suc}
use mathlib.Core.Path.{◌≡◌, refl, sym, ap, subst, ◌∙◌}
use mathlib.Core.Logic.{◌⊎◌, inl, inr}
use mathlib.Core.Bool.{Bool, true, false}
use mathlib.Core.List.{List, [], ◌∷◌}
use mathlib.Core.Option.{Option, none, some}
use multi_proxy_panel.Prelude.Tests.{Bool-cases, if◌then◌else◌}

module _ {ℓ} {A : Type ℓ} where
  abbrev pub length : List A → ℕ
  length [] = 0
  length (x ∷ xs) = suc (length xs)

  -- The elements that pass a test, in their order.
  abbrev pub retain : (A → Bool) → List A → List A
  retain p [] = []
  retain p (x ∷ xs) = let rest = retain p xs in if p x then x ∷ rest else rest

  abbrev pub any : (A → Bool) → List A → Bool
  any p [] = false
  any p (x ∷ xs) = if p x then true else any p xs

  abbrev pub find : (A → Bool) → List A → Option A
  find p [] = none
  find p (x ∷ xs) = if p x then some x else find p xs

  -- The last element that passes a test: what a map holds after insertions in this order.
  abbrev pub find_last : (A → Bool) → List A → Option A
  find_last p [] = none
  find_last p (x ∷ xs) = elim (find_last p xs) [
    | some y ↦ some y
    | none ↦ if p x then some x else none
  ]

  abbrev pub All {κ} : (A → Type κ) → List A → Type κ
  All P [] = Unit
  All P (x ∷ xs) = P x × All P xs

-- `x` is one of the elements.
abbrev pub In : {A : Type 0} → A → List A → Type 0
In x [] = ⊥
In x (y ∷ ys) = (x ≡ y) ⊎ In x ys

pub All-In : {A : Type 0} (P : A → Type 0) (xs : List A) {x : A} → All P xs → In x xs → P x
All-In P [] h m = absurd m
All-In P (x ∷ xs) h (inl e) = subst P (sym e) h.0
All-In P (x ∷ xs) h (inr m) = All-In P xs h.1 m

pub In-retain :
    {A : Type 0} (p : A → Bool) (xs : List A) {x : A} → In x xs → p x ≡ true → In x (retain p xs)
In-retain p [] m h = m
In-retain p (x ∷ xs) {x = y} (inl e) h = rw (ap p (sym e) ∙ h) (inl e)
In-retain p (x ∷ xs) {x = y} (inr m) h = elim (Bool-cases (p x)) [
  | inl t ↦ rw t (inr (In-retain p xs m h))
  | inr t ↦ rw t (In-retain p xs m h)
]

pub All-retain :
    {A : Type 0} (P : A → Type 0) (p : A → Bool) (xs : List A) → All P xs → All P (retain p xs)
All-retain P p [] h = tt
All-retain P p (x ∷ xs) h = elim (Bool-cases (p x)) [
  | inl t ↦ rw t (h.0, All-retain P p xs h.1)
  | inr t ↦ rw t (All-retain P p xs h.1)
]

abbrev pub Just : {A : Type 0} → (A → Type 0) → Option A → Type 0
Just P none = Unit
Just P (some a) = P a

-- What is found passes the test.
pub find_last-Just :
    {A : Type 0} (p : A → Bool) (xs : List A) → Just (λ x. p x ≡ true) (find_last p xs)
find_last-Just p [] = tt
find_last-Just {A} p (x ∷ xs) = step (find_last p xs) (find_last-Just p xs)
  where
    here : (b : Bool) → p x ≡ b → Just (λ y. p y ≡ true) (if b then some x else none)
    here true e = e
    here false e = tt

    step :
        (o : Option A)
        → Just (λ y. p y ≡ true) o
        → Just (λ y. p y ≡ true) (elim o [ some y ↦ some y | none ↦ if p x then some x else none ])
    step (some y) h = h
    step none h = here (p x) refl

-- What is found is one of the elements, and passes the test.
pub find-Just :
    {A : Type 0} (p : A → Bool) (xs : List A) → Just (λ x. In x xs × (p x ≡ true)) (find p xs)
find-Just p [] = tt
find-Just {A} p (x ∷ xs) = here (p x) refl (find-Just p xs)
  where
    later :
        (o : Option A)
        → Just (λ y. In y xs × (p y ≡ true)) o
        → Just (λ y. In y (x ∷ xs) × (p y ≡ true)) o
    later none h = tt
    later (some y) h = (inr h.0, h.1)

    here :
        (b : Bool)
        → p x ≡ b
        → Just (λ y. In y xs × (p y ≡ true)) (find p xs)
        → Just (λ y. In y (x ∷ xs) × (p y ≡ true)) (if b then some x else find p xs)
    here true e h = (inl refl, e)
    here false e h = later (find p xs) h

pub retain-In :
    {A : Type 0} (p : A → Bool) (xs : List A) (x : A) → In x (retain p xs) → In x xs × (p x ≡ true)
retain-In p [] x m = absurd m
retain-In p (y ∷ ys) x m = here (p y) refl (λ n. retain-In p ys x n) m
  where
    here :
        (b : Bool)
        → p y ≡ b
        → (In x (retain p ys) → In x ys × (p x ≡ true))
        → In x (if b then y ∷ retain p ys else retain p ys)
        → In x (y ∷ ys) × (p x ≡ true)
    here true e ih (inl q) = (inl q, ap p q ∙ e)
    here true e ih (inr n) = (inr (ih n).0, (ih n).1)
    here false e ih n = (inr (ih n).0, (ih n).1)
