-- ===== src/Prelude/Sort.antt =====
-- Python's `sort`, which is stable, by a strict test, and what it keeps.
use Prim.Native.Nat.{suc}
use mathlib.Core.Path.{◌≡◌, refl}
use mathlib.Core.Bool.{Bool, true, false}
use mathlib.Core.List.{List, [], ◌∷◌, Perm}
use mathlib.Core.List.Perm
use native.Mathlib.Omega.{arith}
use oracle_diagnostic_estack.Prelude.Tests.{if◌then◌else◌, pick}
use oracle_diagnostic_estack.Prelude.Lists.{length, All}

module _ {ℓ} {A : Type ℓ} (lt : A → A → Bool) where
  -- Before the first element that is not smaller.
  abbrev pub insert_by : A → List A → List A
  insert_by x [] = x ∷ []
  insert_by x (y ∷ ys) = let rest = insert_by x ys in if lt y x then y ∷ rest else x ∷ y ∷ ys

  unfoldable pub sort_by : List A → List A
  sort_by [] = []
  sort_by (x ∷ xs) = insert_by x (sort_by xs)

  -- Each element is not smaller than the one before it.
  abbrev pub IsSortedBy : List A → Type 0
  IsSortedBy [] = Unit
  IsSortedBy (x ∷ []) = Unit
  IsSortedBy (x ∷ y ∷ ys) = (lt y x ≡ false) × IsSortedBy (y ∷ ys)

  abbrev pub IsAsym : Type ℓ
  IsAsym = (x y : A) → lt x y ≡ true → lt y x ≡ false

  IsSortedBy-insert_by :
      IsAsym → (x : A) (ys : List A) → IsSortedBy ys → IsSortedBy (insert_by x ys)
  IsSortedBy-insert_by asym x [] s = tt
  IsSortedBy-insert_by asym x (y ∷ []) s = go (lt y x) refl
    where
      go : (b : Bool) → lt y x ≡ b → IsSortedBy (if b then y ∷ x ∷ [] else x ∷ y ∷ [])
      go true e = (asym y x e, tt)
      go false e = (e, tt)
  IsSortedBy-insert_by asym x (y ∷ z ∷ zs) s =
      go (lt y x) (lt z x) refl (IsSortedBy-insert_by asym x (z ∷ zs) s.1)
    where
      go :
          (b c : Bool)
          → lt y x ≡ b
          → IsSortedBy (if c then z ∷ insert_by x zs else x ∷ z ∷ zs)
          → IsSortedBy
              (if b then y ∷ (if c then z ∷ insert_by x zs else x ∷ z ∷ zs) else x ∷ y ∷ z ∷ zs)
      go true true e r = (s.0, r)
      go true false e r = (asym y x e, r)
      go false c e r = (e, s)

  pub sort_by-IsSortedBy : IsAsym → (xs : List A) → IsSortedBy (sort_by xs)
  unfolding sort_by
  sort_by-IsSortedBy asym [] = tt
  sort_by-IsSortedBy asym (x ∷ xs) =
      IsSortedBy-insert_by asym x (sort_by xs) (sort_by-IsSortedBy asym xs)

  insert_by-perm : (x : A) (ys : List A) → Perm (insert_by x ys) (x ∷ ys)
  insert_by-perm x [] = Perm.refl (x ∷ [])
  insert_by-perm x (y ∷ ys) =
      pick (λ l. Perm l (x ∷ y ∷ ys)) (lt y x) (y ∷ insert_by x ys) (x ∷ y ∷ ys)
        (Perm.trans (Perm.cons y (insert_by-perm x ys)) (Perm.swap x y ys)) (Perm.refl (x ∷ y ∷ ys))

  pub sort_by-perm : (xs : List A) → Perm (sort_by xs) xs
  unfolding sort_by
  sort_by-perm [] = Perm.refl []
  sort_by-perm (x ∷ xs) = Perm.trans (insert_by-perm x (sort_by xs)) (Perm.cons x (sort_by-perm xs))

  All-insert_by : (P : A → Type 0) (x : A) (ys : List A) → P x → All P ys → All P (insert_by x ys)
  All-insert_by P x [] h hs = (h, tt)
  All-insert_by P x (y ∷ ys) h hs =
      pick (All P) (lt y x) (y ∷ insert_by x ys) (x ∷ y ∷ ys) (hs.0, All-insert_by P x ys h hs.1)
        (h, hs)

  pub All-sort_by : (P : A → Type 0) (xs : List A) → All P xs → All P (sort_by xs)
  unfolding sort_by
  All-sort_by P [] h = tt
  All-sort_by P (x ∷ xs) h = All-insert_by P x (sort_by xs) h.0 (All-sort_by P xs h.1)

  length-insert_by : (x : A) (ys : List A) → length (insert_by x ys) ≡ suc (length ys)
  length-insert_by x [] = refl
  length-insert_by x (y ∷ ys) = ground (arith, length-insert_by x ys)

  pub length-sort_by : (xs : List A) → length (sort_by xs) ≡ length xs
  unfolding sort_by
  length-sort_by [] = refl
  length-sort_by (x ∷ xs) = omega (arith, length-insert_by x (sort_by xs), length-sort_by xs)
