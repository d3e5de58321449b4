-- ===== src/Evidence/Sanitize/Deny.antt =====
-- Default deny: nothing leaves `sanitize_rows` but declared fields, each in the form that its
-- declared type allows, and never more rows than the smallest of the three limits.
use oracle_diagnostic_estack.Prelude.{
  ℕ, ◌+◌, ◌≤◌, String, ◌≡◌, refl, subst, ◌⊎◌, inl, inr, false, Option, none, some, List, [], ◌∷◌,
  arith, str_eq, eq_iff, length, take, length-take, All, Bool-cases, Option-cases,
}
use oracle_diagnostic_estack.Prelude.Dict.{Dict, lookup, insert}
use oracle_diagnostic_estack.Common.{ok}
use oracle_diagnostic_estack.Schemas.{Json, Items, Members, end, member}
use oracle_diagnostic_estack.Evidence.Sanitize.{
  Field, Released, Runtime, Aliases, is_drop, sanitize_value, typed_value, take_field, add_field,
  Counts, Progress, clean_row, clean_rows, append_row, Payload, payload_of, sanitize_rows, as_rows,
  cap_of, no_counts,
}
use oracle_diagnostic_estack.Evidence.Sanitize.Forms.{Allowed, value-Allowed}

module _ (run : Runtime) where
  abbrev pub Occurs : String → Json → Members → Type 0
  Occurs k w end = ⊥
  Occurs k w (member j u ms) = ((j ≡ k) × (u ≡ w)) ⊎ Occurs k w ms

  -- A released field is declared, with a policy other than DROP, and stands for a value that the
  -- raw row has under its key, in a form that its type allows.
  abbrev pub Justified : Dict Field → String → Members → String → Released → Type 0
  Justified fields target raw k v =
      (f : Field) × (w : Json) × (lookup k fields ≡ some f)
      × (is_drop f.policy ≡ false)
      × Occurs k w raw
      × Allowed run f target f.kind w v

  abbrev pub IsJustified : Dict Field → String → Members → Dict Released → Type 0
  IsJustified fields target raw row = All (λ r. Justified fields target raw r.0 r.1) row

  insert-IsJustified :
      (fields : Dict Field) (target : String) (raw : Members) (k : String) (v : Released)
      (row : Dict Released)
      → Justified fields target raw k v
      → IsJustified fields target raw row
      → IsJustified fields target raw (insert k v row)
  unfolding insert
  insert-IsJustified fields target raw k v [] h all = (h, tt)
  insert-IsJustified fields target raw k v ((j, w) ∷ row) h all = elim (Bool-cases (str_eq j k)) [
    | inl same_key ↦ rw same_key (rw ((eq_iff j k).0 same_key) (h, all.1))
    | inr other ↦ rw other (all.0, insert-IsJustified fields target raw k v row h all.1)
  ]

  add_field-IsJustified :
      (fields : Dict Field) (target : String) (raw : Members) (f : Field) (k : String)
      (r : Option Released × Aliases) (c : Counts) (row : Dict Released)
      → ((v : Released) → r.0 ≡ some v → Justified fields target raw k v)
      → IsJustified fields target raw row
      → IsJustified fields target raw (add_field f k r c row).0
  add_field-IsJustified fields target raw f k (some v, a) c row h all =
      insert-IsJustified fields target raw k v row (h v refl) all
  add_field-IsJustified fields target raw f k (none, a) c row h all = all

  take_field-IsJustified :
      (fields : Dict Field) (raw : Members) (target k : String) (w : Json) (p : Progress)
      (row : Dict Released)
      → Occurs k w raw
      → IsJustified fields target raw row
      → IsJustified fields target raw (take_field run (lookup k fields) target k w p row).0
  unfolding sanitize_value
  take_field-IsJustified fields raw target k w p row here all =
      elim (Option-cases (lookup k fields)) [
        | inl undeclared ↦ rw undeclared all
        | inr (f, declared) ↦ elim (Bool-cases (is_drop f.policy)) [
          | inl dropped ↦ rw (declared, dropped) all
          | inr kept ↦
              rw (declared, kept)
                (add_field-IsJustified fields target raw f k (typed_value run f target w p.aliases)
                  p.counts row
                  (λ v valid.
                    (f, w, declared, kept, here, value-Allowed run f target w p.aliases v valid))
                  all)
        ]
      ]

  clean_row-IsJustified :
      (fields : Dict Field) (raw ms : Members) (target : String) (p : Progress)
      (row : Dict Released)
      → ((k : String) (w : Json) → Occurs k w ms → Occurs k w raw)
      → IsJustified fields target raw row
      → IsJustified fields target raw (clean_row run fields target ms p row).0
  unfolding clean_row
  clean_row-IsJustified fields raw end target p row inside all = all
  clean_row-IsJustified fields raw (member k w ms) target p row inside all =
      let step = take_field run (lookup k fields) target k w p row in
      clean_row-IsJustified fields raw ms target step.1 step.0 (λ j u o. inside j u (inr o))
        (take_field-IsJustified fields raw target k w p row (inside k w (inl (refl, refl))) all)

  -- Every released row comes from one of the raw rows.
  abbrev pub FromSome : Dict Field → String → List Members → Dict Released → Type 0
  FromSome fields target [] row = ⊥
  FromSome fields target (raw ∷ raws) row =
      IsJustified fields target raw row ⊎ FromSome fields target raws row

  append_row-All :
      (P : Dict Released → Type 0) (row : Dict Released) (rows : List (Dict Released))
      → P row
      → All P rows
      → All P (append_row row rows)
  append_row-All P [] rows h all = all
  append_row-All P (f ∷ row) rows h all = (h, all)

  All-map :
      (P Q : Dict Released → Type 0) (rows : List (Dict Released))
      → ((row : Dict Released) → P row → Q row)
      → All P rows
      → All Q rows
  All-map P Q [] h all = tt
  All-map P Q (row ∷ rows) h all = (h row all.0, All-map P Q rows h all.1)

  clean_rows-FromSome :
      (fields : Dict Field) (target : String) (raws : List Members) (p : Progress)
      → All (FromSome fields target raws) (clean_rows run fields target raws p).0
  unfolding clean_rows
  clean_rows-FromSome fields target [] p = tt
  clean_rows-FromSome fields target (raw ∷ raws) p =
      let step = clean_row run fields target raw p [] in
      append_row-All (FromSome fields target (raw ∷ raws)) step.0
        (clean_rows run fields target raws step.1).0
        (inl (clean_row-IsJustified fields raw raw target p [] (λ k w o. o) tt))
        (All-map (FromSome fields target raws) (FromSome fields target (raw ∷ raws))
          (clean_rows run fields target raws step.1).0 (λ row h. inr h)
          (clean_rows-FromSome fields target raws step.1))

  length-append_row :
      (row : Dict Released) (rows : List (Dict Released))
      → length (append_row row rows) ≤ length rows + 1
  length-append_row [] rows = omega arith
  length-append_row (f ∷ row) rows = omega arith

  length-clean_rows :
      (fields : Dict Field) (target : String) (raws : List Members) (p : Progress)
      → length (clean_rows run fields target raws p).0 ≤ length raws
  unfolding clean_rows
  length-clean_rows fields target [] p = omega arith
  length-clean_rows fields target (raw ∷ raws) p =
      let step = clean_row run fields target raw p [] in
      omega (
        arith,
        length-append_row step.0 (clean_rows run fields target raws step.1).0,
        length-clean_rows fields target raws step.1,
      )

  payload-deny :
      (fields : Dict Field) (row_limit : ℕ) (target : String) (row_cap : ℕ)
      (aliases after : Aliases) (payload : Payload) (raws : List Members)
      → payload_of run fields row_limit target row_cap aliases (some raws) ≡ ok (payload, after)
      → (payload.row_count ≡ length payload.rows)
        × (payload.row_count ≤ cap_of row_cap row_limit)
        × All (FromSome fields target (take (cap_of row_cap row_limit) raws)) payload.rows
  unfolding payload_of
  payload-deny fields row_limit target row_cap aliases after payload raws h =
      let cap = cap_of row_cap row_limit in
      let start : Progress = record { aliases = aliases; counts = no_counts } in
      let out = (clean_rows run fields target (take cap raws) start).0 in
      let rows : out ≡ payload.rows = ground arith in
      let count : length out ≡ payload.row_count = ground arith in
      (
        cc (rows, count),
        omega (
          arith,
          length-clean_rows fields target (take cap raws) start,
          count,
          length-take cap raws,
        ),
        rw rows at (clean_rows-FromSome fields target (take cap raws) start),
      )

  -- Whatever an adapter returns, `sanitize_rows` refuses it for its shape, or gives a payload with
  -- at most as many rows as each of the three limits allows, in which every field is declared and
  -- not dropped, and stands for a value of the raw row that it comes from, in a form that the
  -- field's type allows. What is released as it came is of the type, in its grammar, among its values
  -- or within its limits. An identifier has to have its grammar and no secret's shape, and leaves
  -- only as the alias, the keyed hash or the keyed token that the policy asks for; a signature leaves
  -- as itself only if it is certified, and else as its token; a time leaves in UTC; free text never.
  pub sanitize_rows-deny :
      (fields : Dict Field) (row_limit : ℕ) (raw : Items) (target : String) (row_cap : ℕ)
      (aliases after : Aliases) (payload : Payload)
      → sanitize_rows run fields row_limit raw target row_cap aliases ≡ ok (payload, after)
      → (payload.row_count ≡ length payload.rows)
        × (payload.row_count ≤ cap_of row_cap row_limit)
        × ((raws : List Members) × (as_rows raw ≡ some raws)
            × All (FromSome fields target (take (cap_of row_cap row_limit) raws)) payload.rows)
  unfolding sanitize_rows
  sanitize_rows-deny fields row_limit raw target row_cap aliases after payload h =
      elim (Option-cases (as_rows raw)) [
        | inl bad ↦ absurd (ground arith)
        | inr (raws, shape) ↦
            let (count, bound, rows) =
              payload-deny fields row_limit target row_cap aliases after payload raws (
                subst
                  (λ o.
                    payload_of run fields row_limit target row_cap aliases o ≡ ok (payload, after))
                  shape h) in
            (count, bound, (raws, shape, rows))
      ]
