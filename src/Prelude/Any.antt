-- ===== src/Prelude/Any.antt =====
-- One of the elements of a list, and lists that are filtered.
use mathlib.Core.Path.{◌≡◌, refl, sym, subst}
use mathlib.Core.Logic.{◌⊎◌, inl, inr}
use mathlib.Core.Bool.{Bool, true, false}
use mathlib.Core.List.{List, [], ◌∷◌}
use oracle_diagnostic_estack.Prelude.Tests.{if◌then◌else◌, pick_if}
use oracle_diagnostic_estack.Prelude.Lists.{All, keep}

-- One of the elements satisfies `P`.
abbrev pub Any : {A : Type 0} → (A → Type 0) → List A → Type 0
Any P [] = ⊥
Any P (x ∷ xs) = P x ⊎ Any P xs

pub Any-keep :
    {A : Type 0} (P : A → Type 0) (p : A → Bool) (xs : List A)
    → Any P (keep p xs)
    → Any (λ x. (p x ≡ true) × P x) xs
Any-keep P p [] h = h
Any-keep P p (x ∷ xs) h = go (p x) refl (Any-keep P p xs) h
  where
    go :
        (b : Bool)
        → p x ≡ b
        → (Any P (keep p xs) → Any (λ y. (p y ≡ true) × P y) xs)
        → Any P (if b then x ∷ keep p xs else keep p xs)
        → Any (λ y. (p y ≡ true) × P y) (x ∷ xs)
    go true e rest (inl here) = inl (e, here)
    go true e rest (inr later) = inr (rest later)
    go false e rest later = inr (rest later)

pub keep-Any :
    {A : Type 0} (P : A → Type 0) (p : A → Bool) (xs : List A)
    → Any (λ x. (p x ≡ true) × P x) xs
    → Any P (keep p xs)
keep-Any P p [] h = h
keep-Any P p (x ∷ xs) (inl (e, here)) =
    subst (λ b. Any P (if b then x ∷ keep p xs else keep p xs)) (sym e) (inl here)
keep-Any P p (x ∷ xs) (inr later) =
    let rest = keep-Any P p xs later in
    pick_if (Any P) (p x) (x ∷ keep p xs) (keep p xs) (λ _. inr rest) (λ _. rest)

pub Any-map :
    {A : Type 0} (P Q : A → Type 0) (xs : List A) → ((x : A) → P x → Q x) → Any P xs → Any Q xs
Any-map P Q (x ∷ xs) f (inl h) = inl (f x h)
Any-map P Q (x ∷ xs) f (inr h) = inr (Any-map P Q xs f h)
Any-map P Q [] f h = h

pub All-keep :
    {A : Type 0} (P : A → Type 0) (p : A → Bool) (xs : List A) → All P xs → All P (keep p xs)
All-keep P p [] h = tt
All-keep P p (x ∷ xs) (here, later) =
    let rest = All-keep P p xs later in
    pick_if (All P) (p x) (x ∷ keep p xs) (keep p xs) (λ _. (here, rest)) (λ _. rest)
