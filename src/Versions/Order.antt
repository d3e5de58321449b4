-- ===== src/Versions/Order.antt =====
-- The numeric order of versions, against an independent description: two versions are read as
-- sequences of components that go on with zeros, and the first difference decides.
use oracle_diagnostic_estack.Prelude.{
  ℕ, zero, suc, ◌-◌, ◌≤◌, ◌<◌, max, ◌≡◌, refl, sym, ap, ◌∙◌, ◌↔◌, inl, inr, Bool, true, false, some,
  List, [], ◌∷◌, ◌++◌, arith, length, replicate, ltb, Bool-cases, length-append, length-replicate,
}
use oracle_diagnostic_estack.Prelude.Int.{ℤ, pos, negsuc, ◌-ℤ◌}
use oracle_diagnostic_estack.Text.{Text}
use oracle_diagnostic_estack.Versions.{
  from_bool, parse_version, tuple_lt, pad, compare_parsed, compare_versions,
}

-- The component at a position; what is missing counts as zero.
abbrev pub component : List ℕ → ℕ → ℕ
component [] i = 0
component (x ∷ xs) zero = x
component (x ∷ xs) (suc i) = component xs i

-- Equal up to some position, and smaller there.
pub record Older (p q : List ℕ) : Type 0 where
  pub position : ℕ
  pub same : (j : ℕ) → j < position → component p j ≡ component q j
  pub smaller : component p position < component q position

abbrev pub SameVersion : List ℕ → List ℕ → Type 0
SameVersion p q = (i : ℕ) → component p i ≡ component q i

component-replicate : (n i : ℕ) → component (replicate n 0) i ≡ 0
component-replicate zero i = refl
component-replicate (suc n) zero = refl
component-replicate (suc n) (suc i) = component-replicate n i

component-append_zeros : (p : List ℕ) (n i : ℕ) → component (p ++ replicate n 0) i ≡ component p i
component-append_zeros [] n i = component-replicate n i
component-append_zeros (x ∷ p) n zero = refl
component-append_zeros (x ∷ p) n (suc i) = component-append_zeros p n i

component-pad : (p : List ℕ) (n i : ℕ) → component (pad n p) i ≡ component p i
component-pad p n i = component-append_zeros p (n - length p) i

length-pad : (n : ℕ) (p : List ℕ) → length p ≤ n → length (pad n p) ≡ n
length-pad n p h =
    omega (
      arith,
      length-append p (replicate (n - length p) 0),
      length-replicate {A = ℕ} (n - length p) 0,
    )

cons-same :
    (x y k : ℕ) (xs ys : List ℕ)
    → x ≡ y
    → ((j : ℕ) → j < k → component xs j ≡ component ys j)
    → (j : ℕ) → j < suc k
    → component (x ∷ xs) j ≡ component (y ∷ ys) j
cons-same x y k xs ys e same zero h = e
cons-same x y k xs ys e same (suc j) h = same j (omega arith)

Older-cons : {x y : ℕ} {xs ys : List ℕ} → x ≡ y → Older xs ys → Older (x ∷ xs) (y ∷ ys)
Older-cons {x} {y} {xs} {ys} e later = record {
  position = suc later.position;
  same = cons-same x y later.position xs ys e later.same;
  smaller = later.smaller;
}

lt→Older : (xs ys : List ℕ) → length xs ≡ length ys → tuple_lt xs ys ≡ true → Older xs ys
unfolding tuple_lt
lt→Older [] [] e h = absurd (ground arith)
lt→Older [] (y ∷ ys) e h = absurd (omega arith)
lt→Older (x ∷ xs) [] e h = absurd (omega arith)
lt→Older (x ∷ xs) (y ∷ ys) e h = elim (Bool-cases (ltb x y)) [
  | inl less ↦ record { position = 0; same = λ j k. elim k [ ]; smaller = ground arith }
  | inr more ↦ Older-cons (ground arith) (lt→Older xs ys (omega arith) (ground arith))
]

Older→lt :
    (xs ys : List ℕ) (i : ℕ)
    → length xs ≡ length ys
    → ((j : ℕ) → j < i → component xs j ≡ component ys j)
    → component xs i < component ys i
    → tuple_lt xs ys ≡ true
unfolding tuple_lt
Older→lt [] [] i e same less = absurd (omega arith)
Older→lt [] (y ∷ ys) i e same less = absurd (omega arith)
Older→lt (x ∷ xs) [] i e same less = absurd (omega arith)
Older→lt (x ∷ xs) (y ∷ ys) zero e same less = ground arith
Older→lt (x ∷ xs) (y ∷ ys) (suc i) e same less =
    let later = Older→lt xs ys i (omega arith) (λ j h. same (suc j) (omega arith)) less in
    let head : x ≡ y = same 0 (omega arith) in ground arith

-- With equal lengths, no difference in either direction is equality.
eq_of_not_lt :
    (xs ys : List ℕ)
    → length xs ≡ length ys
    → tuple_lt xs ys ≡ false
    → tuple_lt ys xs ≡ false
    → xs ≡ ys
unfolding tuple_lt
eq_of_not_lt [] [] e h k = refl
eq_of_not_lt [] (y ∷ ys) e h k = absurd (omega arith)
eq_of_not_lt (x ∷ xs) [] e h k = absurd (omega arith)
eq_of_not_lt (x ∷ xs) (y ∷ ys) e h k =
    let rest = eq_of_not_lt xs ys (omega arith) in ground (arith, rest)

tuple_lt_irrefl : (xs : List ℕ) → tuple_lt xs xs ≡ false
unfolding tuple_lt
tuple_lt_irrefl [] = refl
tuple_lt_irrefl (x ∷ xs) = ground (arith, tuple_lt_irrefl xs)

tuple_lt_asymm : (xs ys : List ℕ) → tuple_lt xs ys ≡ true → tuple_lt ys xs ≡ false
unfolding tuple_lt
tuple_lt_asymm [] [] h = refl
tuple_lt_asymm [] (y ∷ ys) h = refl
tuple_lt_asymm (x ∷ xs) [] h = absurd (ground arith)
tuple_lt_asymm (x ∷ xs) (y ∷ ys) h = let rest = tuple_lt_asymm xs ys in ground (arith, rest)

Older-pad : (n : ℕ) (p q : List ℕ) → Older (pad n p) (pad n q) → Older p q
Older-pad n p q h = record {
  position = h.position;
  same = λ j k. sym (component-pad p n j) ∙ h.same j k ∙ component-pad q n j;
  smaller = omega (arith, component-pad p n h.position, component-pad q n h.position, h.smaller);
}

module _ (p q : List ℕ) where
  abbrev joint : ℕ
  joint = max (length p) (length q)

  length-pads : length (pad joint p) ≡ length (pad joint q)
  length-pads = omega (arith, length-pad joint p, length-pad joint q)

  pub Older→compare : Older p q → tuple_lt (pad joint p) (pad joint q) ≡ true
  Older→compare h =
      Older→lt (pad joint p) (pad joint q) h.position length-pads
        (λ j k. component-pad p joint j ∙ h.same j k ∙ sym (component-pad q joint j))
        (omega
          (arith, component-pad p joint h.position, component-pad q joint h.position, h.smaller))

  pub compare→Older : tuple_lt (pad joint p) (pad joint q) ≡ true → Older p q
  compare→Older h = Older-pad joint p q (lt→Older (pad joint p) (pad joint q) length-pads h)

joint_comm : (p q : List ℕ) → joint p q ≡ joint q p
joint_comm p q = omega arith

compare_parsed-flip : (p q : List ℕ) → compare_parsed q p ≡ pos 0 -ℤ compare_parsed p q
unfolding compare_parsed
compare_parsed-flip p q = rw (joint_comm q p) (ground arith)

compare_parsed-Older : (p q : List ℕ) → (compare_parsed p q ≡ negsuc 0) ↔ Older p q
unfolding compare_parsed
compare_parsed-Older p q = (
  λ h. compare→Older p q (ground arith),
  λ h.
      let less = Older→compare p q h in
      let other = tuple_lt_asymm (pad (joint p q) p) (pad (joint p q) q) less in ground arith,
)

not-Older : (p q : List ℕ) → SameVersion p q → ¬ Older p q
not-Older p q same h = absurd (omega (arith, same h.position, h.smaller))

differ_zero :
    (a b : Bool)
    → (a ≡ true → b ≡ false)
    → from_bool a -ℤ from_bool b ≡ pos 0
    → (a ≡ false) × (b ≡ false)
unfolding ◌-ℤ◌
differ_zero true b h e = let k = h refl in ground arith
differ_zero false b h e = ground arith

zero_differ : (a b : Bool) → a ≡ false → b ≡ false → from_bool a -ℤ from_bool b ≡ pos 0
unfolding ◌-ℤ◌
zero_differ a b h k = ground arith

not_true : (b : Bool) → ¬ (b ≡ true) → b ≡ false
not_true true h = absurd (h refl)
not_true false h = refl

module _ (p q : List ℕ) where
  abbrev p' : List ℕ
  p' = pad (joint p q) p

  abbrev q' : List ℕ
  q' = pad (joint p q) q

  same_of_zero : compare_parsed p q ≡ pos 0 → SameVersion p q
  unfolding compare_parsed
  same_of_zero h i =
      let n = joint p q in
      let (newer, older) = differ_zero (tuple_lt q' p') (tuple_lt p' q') (tuple_lt_asymm q' p') h in
      let e = eq_of_not_lt p' q' (length-pads p q) older newer in
      sym (component-pad p n i) ∙ ap (λ l. component l i) e ∙ component-pad q n i

  zero_of_same : SameVersion p q → compare_parsed p q ≡ pos 0
  unfolding compare_parsed
  zero_of_same same =
      zero_differ (tuple_lt q' p') (tuple_lt p' q')
        (not_true (tuple_lt q' p') (λ h.
          not-Older q p (λ i. sym (same i))
            (Older-pad (joint p q) q p (lt→Older q' p' (sym (length-pads p q)) h))))
        (not_true (tuple_lt p' q') (λ h. not-Older p q same (compare→Older p q h)))

compare_parsed-same : (p q : List ℕ) → (compare_parsed p q ≡ pos 0) ↔ SameVersion p q
compare_parsed-same p q = (same_of_zero p q, zero_of_same p q)

compare_parsed-newer : (p q : List ℕ) → (compare_parsed p q ≡ pos 1) ↔ Older q p
unfolding ◌-ℤ◌
compare_parsed-newer p q =
    let back = compare_parsed-flip p q in
    let other = compare_parsed-flip q p in
    (
      λ h. (compare_parsed-Older q p).0 (rw (back, h)),
      λ h. rw (other, (compare_parsed-Older q p).1 h),
    )

compare_versions-some :
    (a b : Text) (p q : List ℕ)
    → parse_version a ≡ some p
    → parse_version b ≡ some q
    → compare_versions a b ≡ some (compare_parsed p q)
unfolding compare_versions
compare_versions-some a b p q ea eb = rw (ea, eb)

some_iff : (x y : ℤ) → (some x ≡ some y) ↔ (x ≡ y)
some_iff x y = (λ h. cc, λ h. cc)

iff_trans {ℓ κ μ} : {A : Type ℓ} {B : Type κ} {C : Type μ} → A ↔ B → B ↔ C → A ↔ C
iff_trans f g = (λ a. g.0 (f.0 a), λ c. f.1 (g.1 c))

-- For two texts that parse, `compare_versions` answers -1, 0 or 1 exactly as the first differing
-- component says, what is missing counting as zero: -1 if and only if the first is older, 0 if
-- and only if all components agree, 1 if and only if the second is older.
pub compare_versions-orders :
    (a b : Text) (p q : List ℕ)
    → parse_version a ≡ some p
    → parse_version b ≡ some q
    → ((compare_versions a b ≡ some (negsuc 0)) ↔ Older p q)
      × ((compare_versions a b ≡ some (pos 0)) ↔ SameVersion p q)
      × ((compare_versions a b ≡ some (pos 1)) ↔ Older q p)
compare_versions-orders a b p q ea eb =
    let e : compare_versions a b ≡ some (compare_parsed p q) =
      compare_versions-some a b p q ea eb in
    rw e (
      iff_trans (some_iff (compare_parsed p q) (negsuc 0)) (compare_parsed-Older p q),
      iff_trans (some_iff (compare_parsed p q) (pos 0)) (compare_parsed-same p q),
      iff_trans (some_iff (compare_parsed p q) (pos 1)) (compare_parsed-newer p q),
    )
