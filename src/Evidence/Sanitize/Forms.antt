-- ===== src/Evidence/Sanitize/Forms.antt =====
-- The forms that a value may be released in, by the type and the policy of its field.
use oracle_diagnostic_estack.Prelude.{
  ◌-◌, ◌≤◌, String, ◌≡◌, refl, subst, ◌⊎◌, inl, inr, Bool, true, false, not, ◌&&◌, ◌||◌, Option,
  none, some, some-inj, arith, eq_iff, length, leb, ltb, leb→le, ◌==◌, if◌then◌else◌,
}
use oracle_diagnostic_estack.Prelude.Dict.{contains}
use oracle_diagnostic_estack.Prelude.Int.{ℤ, pos, abs, leb_ℤ}
use oracle_diagnostic_estack.Text.{codes}
use oracle_diagnostic_estack.Text.Regex.{Regex, match_dollar}
use oracle_diagnostic_estack.Schemas.{
  Float, Json, null, bool, int, float, str, is_finite, float_le, float_ge,
}
use oracle_diagnostic_estack.Evidence.Grammar
use oracle_diagnostic_estack.Evidence.Grammar.{version, timestamp, interval, is_secret_shaped}
use oracle_diagnostic_estack.Evidence.Sanitize.{
  FieldType, Field, Policy, Released, same, alias, hashed, token, certified, signature_token, utc,
  Runtime, Aliases, alias_of, prefix_of, number_limit, or_limit, keep_if, clean_int, clean_float,
  typed_value, text_value, int_value, float_value, bool_value, signature_value, utc_value,
  identifier_value, plain_text, is_identifier, is_certified_code,
}

-- The number is not greater than 10 ^ 15 in size, and within the limits that the field has.
abbrev IsAtLeast : Option ℤ → ℤ → Type 0
IsAtLeast none n = Unit
IsAtLeast (some a) n = leb_ℤ a n ≡ true

abbrev IsAtMost : Option ℤ → ℤ → Type 0
IsAtMost none n = Unit
IsAtMost (some a) n = leb_ℤ n a ≡ true

abbrev pub IsBetween : Field → ℤ → Type 0
IsBetween f n = (abs n ≤ 1_000_000_000_000_000) × IsAtLeast f.least n × IsAtMost f.most n

abbrev IsFloatAtLeast : Option ℤ → Float → Type 0
IsFloatAtLeast none x = Unit
IsFloatAtLeast (some a) x = float_ge x a ≡ true

abbrev IsFloatAtMost : Option ℤ → Float → Type 0
IsFloatAtMost none x = Unit
IsFloatAtMost (some a) x = float_le x a ≡ true

abbrev pub IsFloatBetween : Field → Float → Type 0
IsFloatBetween f x = (is_finite x ≡ true) × IsFloatAtLeast f.least x × IsFloatAtMost f.most x

-- What an identifier may be replaced by, as the policy of the field has it.
abbrev pub Stands : Runtime → Field → String → String → Released → Type 0
Stands run f target s (alias p n) = (f.policy ≡ Policy.mask) × (p ≡ prefix_of f)
Stands run f target s (hashed h) = (f.policy ≡ Policy.hash) × (h ≡ run.mac "hash" target s 12)
Stands run f target s (token t) = (f.policy ≡ Policy.tokenize) × (t ≡ run.mac "token" target s 16)
Stands run f target s _ = ⊥

Stands-policy :
    (run : Runtime) (f : Field) (target s : String) (a : Aliases) (p : Policy) (v : Released)
    → f.policy ≡ p
    → (elim p as (λ _. Option Released × Aliases) [
      | Policy.mask ↦
          let (n, after) = alias_of target (prefix_of f) s a in
          (some (alias (prefix_of f) n), after)
      | Policy.hash ↦ (some (hashed (run.mac "hash" target s 12)), a)
      | Policy.tokenize ↦ (some (token (run.mac "token" target s 16)), a)
      | _ ↦ (none, a)
    ]).0
      ≡ some v
    → Stands run f target s v
Stands-policy run f target s a Policy.mask v q h =
    subst (Stands run f target s) (some-inj h) (q, refl)
Stands-policy run f target s a Policy.hash v q h =
    subst (Stands run f target s) (some-inj h) (q, refl)
Stands-policy run f target s a Policy.tokenize v q h =
    subst (Stands run f target s) (some-inj h) (q, refl)
Stands-policy run f target s a Policy.keep v q h = absurd (ground (arith, h))
Stands-policy run f target s a Policy.drop v q h = absurd (ground (arith, h))
Stands-policy run f target s a Policy.signature v q h = absurd (ground (arith, h))

keep_if-some :
    (b : Bool) (j : Json) (v : Released) → keep_if b j ≡ some v → (b ≡ true) × (same j ≡ v)
keep_if-some true j v h = (refl, some-inj h)
keep_if-some false j v h = absurd (ground (arith, h))

and-both : (a b : Bool) → (a && b) ≡ true → (a ≡ true) × (b ≡ true)
and-both true b h = (refl, h)
and-both false b h = absurd (ground (arith, h))

not-true : (b : Bool) → not b ≡ true → b ≡ false
not-true false h = refl
not-true true h = absurd (ground (arith, h))

at_least : (o : Option ℤ) (d n : ℤ) → leb_ℤ (or_limit o d) n ≡ true → IsAtLeast o n
at_least none d n h = tt
at_least (some a) d n h = h

at_most : (o : Option ℤ) (d n : ℤ) → leb_ℤ n (or_limit o d) ≡ true → IsAtMost o n
at_most none d n h = tt
at_most (some a) d n h = h

float_at_least :
    (o : Option ℤ) (d : ℤ) (x : Float) → float_ge x (or_limit o d) ≡ true → IsFloatAtLeast o x
float_at_least none d x h = tt
float_at_least (some a) d x h = h

float_at_most :
    (o : Option ℤ) (d : ℤ) (x : Float) → float_le x (or_limit o d) ≡ true → IsFloatAtMost o x
float_at_most none d x h = tt
float_at_most (some a) d x h = h

abbrev least_number : ℤ
least_number = ℤ.negsuc (number_limit - 1)

clean_int-IsBetween : (f : Field) (n : ℤ) → clean_int f n ≡ true → IsBetween f n
clean_int-IsBetween f n h =
    let (both, high) = and-both _ (leb_ℤ n (or_limit f.most (pos number_limit))) h in
    let (size, low) = and-both (leb (abs n) number_limit) _ both in
    (leb→le _ _ size, at_least f.least least_number n low, at_most f.most (pos number_limit) n high)

clean_float-IsFloatBetween : (f : Field) (x : Float) → clean_float f x ≡ true → IsFloatBetween f x
clean_float-IsFloatBetween f x h =
    let (four, high) = and-both _ (float_le x (or_limit f.most (pos number_limit))) h in
    let (three, low) = and-both _ (float_ge x (or_limit f.least least_number)) four in
    let (two, _) = and-both _ (float_le x (pos number_limit)) three in
    let (is, _) = and-both (is_finite x) _ two in
    (is, float_at_least f.least least_number x low, float_at_most f.most (pos number_limit) x high)

module _ (run : Runtime) where
  abbrev Matches : Regex → String → Type 0
  Matches r s = match_dollar r (codes s) ≡ true

  abbrev IsNoSecret : String → Type 0
  IsNoSecret s = is_secret_shaped run.is_word run.is_decimal (codes s) ≡ false

  -- What a value must be that is released as it came: of the field's type, in the form, among the
  -- values or within the limits that go with the type.
  abbrev pub Fits : FieldType → Field → Json → Type 0
  Fits FieldType.boolean f (bool b) = Unit
  Fits FieldType.integer f (int n) = IsBetween f n
  Fits FieldType.integer_or_unlimited f (int n) = IsBetween f n
  Fits FieldType.integer_or_unlimited f (str s) = s ≡ "UNLIMITED"
  Fits FieldType.number f (int n) = IsBetween f n
  Fits FieldType.number f (float x) = IsFloatBetween f x
  Fits FieldType.enum f (str s) = contains f.values s ≡ true
  Fits FieldType.version_string f (str s) = Matches (version run.is_word run.is_decimal) s
  Fits FieldType.interval_string f (str s) = Matches (interval run.is_word run.is_decimal) s
  Fits FieldType.parameter_name f (str s) = Matches Grammar.parameter_name s
  Fits FieldType.oracle_term f (str s) = Matches Grammar.oracle_term s × IsNoSecret s
  Fits FieldType.sql_id f (str s) = Matches Grammar.sql_id s
  Fits _ f _ = ⊥

  -- A signature that is certified, by its grammar or by name; and one that is not.
  abbrev pub IsCertified : String → Type 0
  IsCertified s = (is_certified_code run s ≡ true) ⊎ (contains run.certified_names s ≡ true)

  abbrev pub IsUncertified : String → Type 0
  IsUncertified s = (is_certified_code run s ≡ false) × (contains run.certified_names s ≡ false)

  abbrev HasLength : String → Type 0
  HasLength s = (1 ≤ length (codes s)) × (length (codes s) ≤ 96)

  -- What a field may release for a raw value, by its type.
  abbrev pub Allowed : Field → String → FieldType → Json → Released → Type 0
  Allowed f target FieldType.identifier raw v =
      (s : String) × (raw ≡ str s)
      × Matches Grammar.identifier s
      × IsNoSecret s
      × Stands run f target s v
  Allowed f target FieldType.signature raw (certified c) =
      (raw ≡ str c) × HasLength c × IsCertified c
  Allowed f target FieldType.signature raw (signature_token t) =
      (s : String) × (raw ≡ str s)
      × HasLength s
      × IsUncertified s
      × (t ≡ run.derive_signature_token target s)
  Allowed f target FieldType.timestamp_utc raw (utc t) =
      (s : String) × (raw ≡ str s)
      × Matches (timestamp run.is_word run.is_decimal) s
      × (run.to_utc s ≡ some t)
  Allowed f target kind raw (same j) = (j ≡ raw) × Fits kind f raw
  Allowed f target _ raw _ = ⊥

  identifier-Allowed :
      (f : Field) (target s : String) (a : Aliases) (v : Released)
      → (text_value run FieldType.identifier f target s a).0 ≡ some v
      → Allowed f target FieldType.identifier (str s) v
  unfolding is_identifier
  identifier-Allowed f target s a v h = go (is_identifier run s) refl h
    where
      go :
          (b : Bool)
          → is_identifier run s ≡ b
          → (if b then identifier_value run f target s a else (none, a)).0 ≡ some v
          → Allowed f target FieldType.identifier (str s) v
      go true q h =
          let (form, clear) = and-both _ _ q in
          (s, refl, form, not-true _ clear, Stands-policy run f target s a f.policy v refl h)
      go false q h = absurd (ground (arith, h))

  kept-Allowed :
      (f : Field) (target : String) (kind : FieldType) (b : Bool) (j : Json) (v : Released)
      → keep_if b j ≡ some v
      → (b ≡ true → Allowed f target kind j (same j))
      → Allowed f target kind j v
  kept-Allowed f target kind b j v h fits =
      let (is, q) = keep_if-some b j v h in subst (Allowed f target kind j) q (fits is)

  signature-Allowed :
      (f : Field) (target s : String) (v : Released)
      → signature_value run target s ≡ some v
      → Allowed f target FieldType.signature (str s) v
  unfolding signature_value
  signature-Allowed f target s v h =
      go (length (codes s) == 0 || ltb 96 (length (codes s))) (is_certified_code run s)
        (contains run.certified_names s) (λ n. ground (arith, n)) refl refl h
    where
      go :
          (b c d : Bool)
          → (b ≡ false → HasLength s)
          → is_certified_code run s ≡ c
          → contains run.certified_names s ≡ d
          → (if b
              then none
              else if c
              then some (certified s)
              else if d
              then some (certified s)
              else some (signature_token (run.derive_signature_token target s)))
            ≡ some v
          → Allowed f target FieldType.signature (str s) v
      go true c d n p q h = absurd (ground (arith, h))
      go false true d n p q h =
          subst (Allowed f target FieldType.signature (str s)) (some-inj h) (refl, n refl, inl p)
      go false false true n p q h =
          subst (Allowed f target FieldType.signature (str s)) (some-inj h) (refl, n refl, inr q)
      go false false false n p q h =
          subst (Allowed f target FieldType.signature (str s)) (some-inj h)
            (s, refl, n refl, (p, q), refl)

  utc-Allowed :
      (f : Field) (target s : String) (v : Released)
      → utc_value run s ≡ some v
      → Allowed f target FieldType.timestamp_utc (str s) v
  utc-Allowed f target s v h =
      go (match_dollar (timestamp run.is_word run.is_decimal) (codes s)) (run.to_utc s) refl refl h
    where
      go :
          (b : Bool) (o : Option String)
          → match_dollar (timestamp run.is_word run.is_decimal) (codes s) ≡ b
          → run.to_utc s ≡ o
          → (if b then elim o [ none ↦ none | some t ↦ some (utc t) ] else none) ≡ some v
          → Allowed f target FieldType.timestamp_utc (str s) v
      go true (some t) p q h =
          subst (Allowed f target FieldType.timestamp_utc (str s)) (some-inj h) (s, refl, p, q)
      go true none p q h = absurd (ground (arith, h))
      go false o p q h = absurd (ground (arith, h))

  text-Allowed :
      (kind : FieldType) (f : Field) (target s : String) (a : Aliases) (v : Released)
      → (text_value run kind f target s a).0 ≡ some v
      → Allowed f target kind (str s) v
  unfolding plain_text
  text-Allowed FieldType.identifier f target s a v h = identifier-Allowed f target s a v h
  text-Allowed FieldType.signature f target s a v h = signature-Allowed f target s v h
  text-Allowed FieldType.timestamp_utc f target s a v h = utc-Allowed f target s v h
  text-Allowed FieldType.text f target s a v h = absurd (ground (arith, h))
  text-Allowed FieldType.integer f target s a v h = absurd (ground (arith, h))
  text-Allowed FieldType.number f target s a v h = absurd (ground (arith, h))
  text-Allowed FieldType.boolean f target s a v h = absurd (ground (arith, h))
  text-Allowed FieldType.integer_or_unlimited f target s a v h =
      kept-Allowed f target FieldType.integer_or_unlimited _ (str s) v h
        (λ b. (refl, (eq_iff s "UNLIMITED").0 b))
  text-Allowed FieldType.oracle_term f target s a v h =
      kept-Allowed f target FieldType.oracle_term _ (str s) v h
        (λ b. let (form, clear) = and-both _ _ b in (refl, (form, not-true _ clear)))
  text-Allowed FieldType.enum f target s a v h =
      kept-Allowed f target FieldType.enum _ (str s) v h (λ b. (refl, b))
  text-Allowed FieldType.version_string f target s a v h =
      kept-Allowed f target FieldType.version_string _ (str s) v h (λ b. (refl, b))
  text-Allowed FieldType.interval_string f target s a v h =
      kept-Allowed f target FieldType.interval_string _ (str s) v h (λ b. (refl, b))
  text-Allowed FieldType.parameter_name f target s a v h =
      kept-Allowed f target FieldType.parameter_name _ (str s) v h (λ b. (refl, b))
  text-Allowed FieldType.sql_id f target s a v h =
      kept-Allowed f target FieldType.sql_id _ (str s) v h (λ b. (refl, b))

  int-Allowed :
      (kind : FieldType) (f : Field) (target : String) (n : ℤ) (v : Released)
      → int_value run kind f n ≡ some v
      → Allowed f target kind (int n) v
  int-Allowed FieldType.integer f target n v h =
      kept-Allowed f target FieldType.integer _ (int n) v h (λ b. (refl, clean_int-IsBetween f n b))
  int-Allowed FieldType.integer_or_unlimited f target n v h =
      kept-Allowed f target FieldType.integer_or_unlimited _ (int n) v h
        (λ b. (refl, clean_int-IsBetween f n b))
  int-Allowed FieldType.number f target n v h =
      kept-Allowed f target FieldType.number _ (int n) v h (λ b. (refl, clean_int-IsBetween f n b))
  int-Allowed _ f target n v h = absurd (ground (arith, h))

  float-Allowed :
      (kind : FieldType) (f : Field) (target : String) (x : Float) (v : Released)
      → float_value run kind f x ≡ some v
      → Allowed f target kind (float x) v
  float-Allowed FieldType.number f target x v h =
      kept-Allowed f target FieldType.number _ (float x) v h
        (λ b. (refl, clean_float-IsFloatBetween f x b))
  float-Allowed _ f target x v h = absurd (ground (arith, h))

  bool-Allowed :
      (kind : FieldType) (f : Field) (target : String) (b : Bool) (v : Released)
      → bool_value run kind b ≡ some v
      → Allowed f target kind (bool b) v
  bool-Allowed FieldType.boolean f target b v h =
      subst (Allowed f target FieldType.boolean (bool b)) (some-inj h) (refl, tt)
  bool-Allowed _ f target b v h = absurd (ground (arith, h))

  pub value-Allowed :
      (f : Field) (target : String) (raw : Json) (a : Aliases) (v : Released)
      → (typed_value run f target raw a).0 ≡ some v
      → Allowed f target f.kind raw v
  value-Allowed f target (str s) a v h = text-Allowed f.kind f target s a v h
  value-Allowed f target (int n) a v h = int-Allowed f.kind f target n v h
  value-Allowed f target (float x) a v h = float-Allowed f.kind f target x v h
  value-Allowed f target (bool b) a v h = bool-Allowed f.kind f target b v h
  value-Allowed f target null a v h = absurd (ground (arith, h))
  value-Allowed f target _ a v h = absurd (ground (arith, h))
