-- ===== src/Tests/Syntax.antt =====
-- The theorems on the syntax of triggers at a concrete expression.
use ntn_operators.Base.{◌≡◌, refl, [], Text, codes, ℤ, negsuc, trim_space, split_first}
use ntn_operators.Slice.Trigger.{Trigger, terrestrial_rsrp, ge, metric_of}
use ntn_operators.Slice.Parse.{ok, operator_text, parse_parts, try_operators, parse_trigger}
use ntn_operators.Slice.Syntax.{parse_trigger-format}
use ntn_operators.Tests.Whole.{whole}

abbrev expression : Text
expression = codes " terrestrialRSRP >=-120 "

abbrev expected : Trigger ℤ
expected = record { metric = terrestrial_rsrp; operator = ge; value = negsuc 119 }

expression_parses : parse_trigger {F = ℤ} expression ≡ ok expected
unfolding parse_trigger try_operators trim_space split_first operator_text parse_parts metric_of
expression_parses = refl

parse_trigger-format_example : parse_trigger expression ≡ ok expected
unfolding operator_text metric_of trim_space
parse_trigger-format_example =
    parse_trigger-format ge (codes "terrestrialRSRP") (codes "-120") (codes " ") (codes " ") []
      (codes " ") (negsuc 119) refl refl refl refl ((refl, refl), refl) ((refl, refl), refl)
      (refl, refl, refl, refl)
