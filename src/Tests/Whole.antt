-- ===== src/Tests/Whole.antt =====
-- Whole numbers in the place of float64: a concrete type with the operations and the laws.
use ntn_operators.Base.{
  ℕ, ◌+◌, ◌-◌, ◌*◌, false, ◌&&◌, Option, none, some, [], ◌∷◌, Text, leb, ◌==◌, if◌then◌else◌, ℤ,
  pos, ◌+ℤ◌, ◌-ℤ◌, sub_ℕ, ltb_ℤ, leb_ℤ, arith,
}
use ntn_operators.Float.{Float, FloatLaws}

abbrev digits_value : ℕ → Text → Option ℕ
digits_value acc [] = some acc
digits_value acc (c ∷ s) =
    let rest = digits_value (acc * 10 + (c - b'0')) s in
    if leb b'0' c && leb c b'9' then rest else none

abbrev natural : Text → Option ℕ
natural [] = none
natural (c ∷ s) = digits_value 0 (c ∷ s)

abbrev negated : Option ℕ → Option ℤ
negated none = none
negated (some n) = some (sub_ℕ 0 n)

abbrev positive : Option ℕ → Option ℤ
positive none = none
positive (some n) = some (pos n)

abbrev whole_number : Text → Option ℤ
whole_number [] = none
whole_number (c ∷ s) = if c == b'-' then negated (natural s) else positive (natural (c ∷ s))

instance abbrev pub whole : Float ℤ
whole = record {
  zero_float = pos 0;
  add = ◌+ℤ◌;
  sub = ◌-ℤ◌;
  lt = ltb_ℤ;
  le = leb_ℤ;
  is_nan = λ x. false;
  is_inf = λ x. false;
  parse_float = whole_number;
}

pub whole_laws : FloatLaws whole
unfolding ◌+ℤ◌ ◌-ℤ◌
whole_laws = record {
  lt_not_le = λ x y h. ground arith;
  le_not_lt = λ x y h. ground arith;
  le_trans = λ x y z h k. ground arith;
  lt_le_trans = λ x y z h k. ground arith;
  le_lt_trans = λ x y z h k. ground arith;
  le-add = λ x m a b c. ground arith;
  sub-le = λ x m a b c. ground arith;
}
