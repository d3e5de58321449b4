-- ===== src/Tests/VersionsTests.antt =====
-- Runs of the version functions.
use oracle_diagnostic_estack.Prelude.{◌≡◌, refl, ◌↔◌, some, none, [], ◌∷◌}
use oracle_diagnostic_estack.Prelude.Int.{pos, negsuc}
use oracle_diagnostic_estack.Text.{Text, codes}
use oracle_diagnostic_estack.Versions.{
  compare_versions, parse_version, family_of, oracle_19c, oracle_23ai,
}
use oracle_diagnostic_estack.Versions.Order.{Older, SameVersion, compare_versions-orders}
use oracle_diagnostic_estack.Versions.Families.{family_of-parsed}

abbrev v_9_2 : Text
v_9_2 = codes "9.2"

abbrev v_10_1 : Text
v_10_1 = codes "10.1"

-- Numbers decide, not text.
older_run : compare_versions v_9_2 v_10_1 ≡ some (negsuc 0)
unfolding compare_versions
older_run = refl

padded_run : compare_versions (codes "19") (codes "19.0.0") ≡ some (pos 0)
unfolding compare_versions
padded_run = refl

patch_run : compare_versions (codes "11.2.0.10") (codes "11.2.0.4") ≡ some (pos 1)
unfolding compare_versions
patch_run = refl

latest_run : compare_versions (codes "latest") v_9_2 ≡ none
unfolding compare_versions
latest_run = refl

family_run : family_of (codes " 19C ") ≡ some oracle_19c
unfolding family_of
family_run = refl

family_token_run : family_of (codes "23ai") ≡ some oracle_23ai
unfolding family_of
family_token_run = refl

parse_9_2 : parse_version v_9_2 ≡ some (9 ∷ 2 ∷ [])
unfolding parse_version
parse_9_2 = refl

parse_10_1 : parse_version v_10_1 ≡ some (10 ∷ 1 ∷ [])
unfolding parse_version
parse_10_1 = refl

compare_versions-orders_example :
    ((compare_versions v_9_2 v_10_1 ≡ some (negsuc 0)) ↔ Older (9 ∷ 2 ∷ []) (10 ∷ 1 ∷ []))
    × ((compare_versions v_9_2 v_10_1 ≡ some (pos 0)) ↔ SameVersion (9 ∷ 2 ∷ []) (10 ∷ 1 ∷ []))
    × ((compare_versions v_9_2 v_10_1 ≡ some (pos 1)) ↔ Older (10 ∷ 1 ∷ []) (9 ∷ 2 ∷ []))
compare_versions-orders_example =
    compare_versions-orders v_9_2 v_10_1 (9 ∷ 2 ∷ []) (10 ∷ 1 ∷ []) parse_9_2 parse_10_1

parse_19_27 : parse_version (codes "19.27.0.0.0") ≡ some (19 ∷ 27 ∷ 0 ∷ 0 ∷ 0 ∷ [])
unfolding parse_version
parse_19_27 = refl

family_of-parsed_example : family_of (codes "19.27.0.0.0") ≡ some oracle_19c
unfolding family_of
family_of-parsed_example =
    family_of-parsed (codes "19.27.0.0.0") 19 (27 ∷ 0 ∷ 0 ∷ 0 ∷ []) parse_19_27
