-- ===== src/FlatpakRef/Tests.antt =====
-- Runs of the parser on refs, and the theorems at concrete refs.
use freebsd_flatpak.Prelude.{◌≡◌, refl, ◌↔◌, ok, err, some, none, true}
use freebsd_flatpak.Text.{Text, text, split}
use freebsd_flatpak.FlatpakRef.{
  app, FlatpakRef, parse, parse_partial, parse_parts, check_parts, strip_kind, full_ref, matches,
  validate_id, validate_arch, validate_branch, invalid_id, dash_before_last, too_few_periods,
}
use freebsd_flatpak.FlatpakRef.Laws.RoundTrip.{
  IsValid, parse-full_ref, full_ref-parse, matches_complete,
}
use freebsd_flatpak.FlatpakRef.Laws.IdRules.{IsName, validate_id-IsName}

abbrev calculator : FlatpakRef
calculator = record {
  kind = app;
  id = text "org.gnome.Calculator";
  arch = text "x86_64";
  branch = text "stable";
}

abbrev calculator_text : Text
calculator_text = text "app/org.gnome.Calculator/x86_64/stable"

calculator-IsValid : IsValid calculator
unfolding validate_id validate_arch validate_branch
calculator-IsValid = record {
  id_valid = refl;
  arch_filled = cc;
  arch_valid = refl;
  branch_filled = cc;
  branch_valid = refl;
}

parse-calculator : parse calculator_text ≡ ok calculator
unfolding parse parse_partial parse_parts check_parts strip_kind split validate_id validate_arch
    validate_branch
parse-calculator = refl

partial_calculator :
    parse_partial calculator_text
    ≡ ok (record {
      kind = some app;
      id = calculator.id;
      arch = some calculator.arch;
      branch = some calculator.branch;
    })
unfolding parse_partial parse_parts check_parts strip_kind split validate_id validate_arch
    validate_branch
partial_calculator = refl

missing_parts :
    parse_partial (text "org.gnome.Calculator//stable")
    ≡ ok (record { kind = none; id = calculator.id; arch = none; branch = some calculator.branch })
unfolding parse_partial parse_parts check_parts strip_kind split validate_id validate_arch
    validate_branch
missing_parts = refl

dash_in_front :
    parse_partial (text "org.gno-me.Calculator")
    ≡ err (invalid_id (text "org.gno-me.Calculator") dash_before_last)
unfolding parse_partial parse_parts check_parts strip_kind split validate_id
dash_in_front = refl

one_period :
    parse_partial (text "gnome.Calculator")
    ≡ err (invalid_id (text "gnome.Calculator") too_few_periods)
unfolding parse_partial parse_parts check_parts strip_kind split validate_id
one_period = refl

parse-full_ref_example : parse (full_ref calculator) ≡ ok calculator
parse-full_ref_example = parse-full_ref calculator calculator-IsValid

full_ref-parse_example : (full_ref calculator ≡ calculator_text) × IsValid calculator
full_ref-parse_example = full_ref-parse calculator_text parse-calculator

matches_complete_example :
    (matches
        (record {
          kind = some app;
          id = calculator.id;
          arch = some calculator.arch;
          branch = some calculator.branch;
        })
        calculator
      ≡ true)
    ↔ (full_ref calculator ≡ calculator_text)
matches_complete_example =
    matches_complete calculator_text calculator partial_calculator refl refl refl calculator-IsValid

validate_id-IsName_example :
    (validate_id (text "org.kde.kwrite-2") ≡ ok tt) ↔ IsName (text "org.kde.kwrite-2")
validate_id-IsName_example = validate_id-IsName (text "org.kde.kwrite-2")
