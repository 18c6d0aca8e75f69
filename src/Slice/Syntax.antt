-- ===== src/Slice/Syntax.antt =====
-- ParseTrigger of failover.go on the written forms of a trigger.
use ntn_operators.Base.{
  ℕ, ◌≡◌, ◌≢◌, refl, sym, ap, ap₂, ◌∙◌, ◌⊎◌, inl, inr, Bool, true, false, not, ◌||◌, Option, none,
  some, List, [], ◌∷◌, ◌++◌, reverse, Text, is_space, trim_left, trim_space, split_first, all,
  all-append, arith, ◌==◌, ==_iff, Option-cases,
}
use mathlib.Core.Option
use mathlib.Core.List.{append-nil, append_assoc, reverse-cons, reverse-append, reverse-reverse}
use ntn_operators.Float.{Float}
use ntn_operators.Slice.Trigger.{Operator, lt, gt, le, ge, Trigger, metric_of}
use ntn_operators.Slice.Parse.{
  ok, is_known, operator_text, parse_parts, try_operators, parse_trigger,
}

-- No character of the three that make an operator.
abbrev is_plain : ℕ → Bool
is_plain c = not (c == b'<' || c == b'>' || c == b'=')

abbrev starts_solid : Text → Bool
starts_solid [] = false
starts_solid (c ∷ s) = not (is_space c)

-- A text that is not empty and neither begins nor ends with white space.
abbrev pub IsTight : Text → Type 0
IsTight s = (starts_solid s ≡ true) × (starts_solid (reverse s) ≡ true)

trim_left-spaces : (p s : Text) → all is_space p ≡ true → trim_left (p ++ s) ≡ trim_left s
unfolding trim_left
trim_left-spaces [] s h = refl
trim_left-spaces (c ∷ p) s h = ground (arith, trim_left-spaces p s)

all-reverse : (q : ℕ → Bool) (s : Text) → all q s ≡ true → all q (reverse s) ≡ true
all-reverse q [] h = refl
all-reverse q (c ∷ s) h =
    rw reverse-cons
      (all-append q (reverse s) (c ∷ []) (all-reverse q s (ground arith)) (ground arith))

trim_left-solid : (s : Text) → starts_solid s ≡ true → trim_left s ≡ s
unfolding trim_left
trim_left-solid [] h = refl
trim_left-solid (c ∷ s) h = ground arith

solid-append : (s t : Text) → starts_solid s ≡ true → starts_solid (s ++ t) ≡ true
solid-append [] t h = cc
solid-append (c ∷ s) t h = h

IsTight-append :
    (s t u : Text)
    → starts_solid s ≡ true
    → starts_solid (reverse u) ≡ true
    → IsTight (s ++ (t ++ u))
IsTight-append s t u hs hu = (
  solid-append s (t ++ u) hs,
  rw (reverse-append s (t ++ u), reverse-append t u)
      (solid-append _ (reverse s) (solid-append (reverse u) (reverse t) hu)),
)

-- White space on both sides of a tight text is trimmed away.
trim_space-pad :
    (p s q : Text)
    → all is_space p ≡ true
    → all is_space q ≡ true
    → IsTight s
    → trim_space (p ++ (s ++ q)) ≡ s
unfolding trim_space
trim_space-pad p s q hp hq t =
    rw (trim_left-spaces p (s ++ q) hp, trim_left-solid (s ++ q) (solid-append s q t.0))
      (rw (reverse-append s q, trim_left-spaces (reverse q) (reverse s) (all-reverse is_space q hq))
        (rw (trim_left-solid (reverse s) t.1) (reverse-reverse s)))

-- An operator is looked for by its first character, which is < or >.
abbrev IsOpening : ℕ → Type 0
IsOpening c = (c ≡ b'<') ⊎ (c ≡ b'>')

prepend_nothing :
    (o : Option (Text × Text)) → o ≡ Option.map (λ (r : Text × Text). ([] ++ r.0, r.1)) o
prepend_nothing none = refl
prepend_nothing (some r) = refl

split_first-plain :
    (c : ℕ) (sep p rest : Text)
    → IsOpening c
    → all is_plain p ≡ true
    → split_first (c ∷ sep) (p ++ rest)
      ≡ Option.map (λ (r : Text × Text). (p ++ r.0, r.1)) (split_first (c ∷ sep) rest)
unfolding split_first
split_first-plain c sep [] rest o h = prepend_nothing _
split_first-plain c sep (d ∷ p) rest o h = ground (arith, split_first-plain c sep p rest o)

split_first-none :
    (c : ℕ) (sep p : Text) → IsOpening c → all is_plain p ≡ true → split_first (c ∷ sep) p ≡ none
unfolding split_first
split_first-none c sep [] o h = refl
split_first-none c sep (d ∷ p) o h = ground (arith, split_first-none c sep p o)

split_first-miss :
    (c : ℕ) (sep p rest : Text)
    → IsOpening c
    → all is_plain p ≡ true
    → split_first (c ∷ sep) rest ≡ none
    → split_first (c ∷ sep) (p ++ rest) ≡ none
split_first-miss c sep p rest o h e = rw (split_first-plain c sep p rest o h, e)

split_first-hit :
    (c : ℕ) (sep p rest b : Text)
    → IsOpening c
    → all is_plain p ≡ true
    → split_first (c ∷ sep) rest ≡ some ([], b)
    → split_first (c ∷ sep) (p ++ rest) ≡ some (p, b)
split_first-hit c sep p rest b o h e =
    rw (split_first-plain c sep p rest o h, e) (ap (λ (s : Text). some (s, b)) (append-nil p))

-- A two-character operator is not found in front of plain text at a single character.
two_at_one :
    (c d : ℕ) (b : Text)
    → IsOpening c
    → all is_plain b ≡ true
    → split_first (c ∷ b'=' ∷ []) (d ∷ b) ≡ none
unfolding split_first
two_at_one c d [] o h = ground arith
two_at_one c d (e ∷ b) o h = ground (arith, split_first-none c (b'=' ∷ []) (e ∷ b) o)

-- Nor is an operator found that opens with the other character.
other_opening :
    (c d : ℕ) (sep b : Text)
    → IsOpening c
    → c ≢ d
    → split_first (c ∷ sep) b ≡ none
    → split_first (c ∷ sep) (d ∷ b) ≡ none
unfolding split_first
other_opening c d sep b o n h = ground arith

equals_first :
    (c : ℕ) (sep b : Text)
    → IsOpening c
    → all is_plain b ≡ true
    → split_first (c ∷ sep) (b'=' ∷ b) ≡ none
equals_first c sep b o h =
    other_opening c b'=' sep b o (ground arith) (split_first-none c sep b o h)

one_here : (c : ℕ) (b : Text) → split_first (c ∷ []) (c ∷ b) ≡ some ([], b)
unfolding split_first
one_here c b = ground arith

two_here : (c d : ℕ) (b : Text) → split_first (c ∷ d ∷ []) (c ∷ d ∷ b) ≡ some ([], b)
unfolding split_first
two_here c d b = ground arith

not_space : (c d : ℕ) → is_space d ≡ false → (c == d) ≡ true → is_space c ≡ false
not_space c d h e = rw ((==_iff c d).0 e) h

not_three :
    (a b c s : Bool)
    → (a ≡ true → s ≡ false)
    → (b ≡ true → s ≡ false)
    → (c ≡ true → s ≡ false)
    → s ≡ true
    → not (a || b || c) ≡ true
not_three a b c s ha hb hc h = ground arith

space_plain : (c : ℕ) → is_space c ≡ true → is_plain c ≡ true
unfolding is_space
space_plain c h =
    not_three _ _ _ _ (not_space c b'<' refl) (not_space c b'>' refl) (not_space c b'=' refl) h

spaces-plain : (s : Text) → all is_space s ≡ true → all is_plain s ≡ true
spaces-plain [] h = refl
spaces-plain (c ∷ s) h = ground (arith, spaces-plain s, space_plain c)

regroup : (a q o r b : Text) → a ++ ((q ++ (o ++ r)) ++ b) ≡ (a ++ q) ++ (o ++ (r ++ b))
regroup a q o r b = simp append_assoc

-- The four operators.
abbrev pub is_operator : Operator → Bool
is_operator (Operator.any_other s) = false
is_operator _ = true

module _ {ℓ} {F : Type ℓ} ⦃fl : Float F⦄ where
  -- Around an operator, the loop splits a text without further operator characters there.
  try_operators-split :
      (op : Operator) (p b : Text)
      → is_operator op ≡ true
      → all is_plain p ≡ true
      → all is_plain b ≡ true
      → try_operators {F = F} (le ∷ ge ∷ lt ∷ gt ∷ []) (p ++ (operator_text op ++ b))
        ≡ parse_parts op (trim_space p) (trim_space b)
  unfolding try_operators operator_text
  try_operators-split lt p b o hp hb = ground (
    arith,
    split_first-miss b'<' (b'=' ∷ []) p (b'<' ∷ b) (inl refl) hp
        (two_at_one b'<' b'<' b (inl refl) hb),
    split_first-miss b'>' (b'=' ∷ []) p (b'<' ∷ b) (inr refl) hp
        (two_at_one b'>' b'<' b (inr refl) hb),
    split_first-hit b'<' [] p (b'<' ∷ b) b (inl refl) hp (one_here b'<' b),
  )
  try_operators-split gt p b o hp hb = ground (
    arith,
    split_first-miss b'<' (b'=' ∷ []) p (b'>' ∷ b) (inl refl) hp
        (two_at_one b'<' b'>' b (inl refl) hb),
    split_first-miss b'>' (b'=' ∷ []) p (b'>' ∷ b) (inr refl) hp
        (two_at_one b'>' b'>' b (inr refl) hb),
    split_first-miss b'<' [] p (b'>' ∷ b) (inl refl) hp (
        other_opening b'<' b'>' [] b (inl refl) (omega arith)
          (split_first-none b'<' [] b (inl refl) hb)),
    split_first-hit b'>' [] p (b'>' ∷ b) b (inr refl) hp (one_here b'>' b),
  )
  try_operators-split le p b o hp hb = ground (
    arith,
    split_first-hit b'<' (b'=' ∷ []) p (b'<' ∷ b'=' ∷ b) b (inl refl) hp (two_here b'<' b'=' b),
  )
  try_operators-split ge p b o hp hb = ground (
    arith,
    split_first-miss b'<' (b'=' ∷ []) p (b'>' ∷ b'=' ∷ b) (inl refl) hp (
        other_opening b'<' b'>' (b'=' ∷ []) (b'=' ∷ b) (inl refl) (omega arith)
          (equals_first b'<' (b'=' ∷ []) b (inl refl) hb)),
    split_first-hit b'>' (b'=' ∷ []) p (b'>' ∷ b'=' ∷ b) b (inr refl) hp (two_here b'>' b'=' b),
  )
  try_operators-split (Operator.any_other s) p b o hp hb = cc

  parse_parts-ok :
      (op : Operator) (name value_text : Text) (value : F)
      → fl.parse_float value_text ≡ some value
      → (fl.is_nan value || fl.is_inf value) ≡ false
      → is_known (metric_of name) ≡ true
      → IsTight name
      → parse_parts op name value_text
        ≡ ok (record { metric = metric_of name; operator = op; value = value })
  unfolding parse_parts
  parse_parts-ok op [] value_text value v f k n = cc
  parse_parts-ok op (c ∷ name) value_text value v f k n = ground arith

  -- ParseTrigger reads back every written form of a trigger: a known metric name, one of the four
  -- operators and a text that ParseFloat reads as a finite value, with any white space around each
  -- of them. The two texts are tight and hold none of the characters <, > and =.
  pub parse_trigger-format :
      (op : Operator) (name value_text p q r u : Text) (value : F)
      → is_operator op ≡ true
      → is_known (metric_of name) ≡ true
      → fl.parse_float value_text ≡ some value
      → (fl.is_nan value || fl.is_inf value) ≡ false
      → IsTight name × (all is_plain name ≡ true)
      → IsTight value_text × (all is_plain value_text ≡ true)
      → (all is_space p ≡ true)
        × (all is_space q ≡ true)
        × (all is_space r ≡ true)
        × (all is_space u ≡ true)
      → parse_trigger {F = F} (p ++ ((name ++ ((q ++ (operator_text op ++ r)) ++ value_text)) ++ u))
        ≡ ok (record { metric = metric_of name; operator = op; value = value })
  unfolding parse_trigger
  parse_trigger-format op name value_text p q r u value o k v f n t w =
      let (wp, wq, wr, wu) = w in
      let core = name ++ ((q ++ (operator_text op ++ r)) ++ value_text) in
      let before = trim_space-pad [] name q refl wq n.0 in
      let behind : trim_space (r ++ value_text) ≡ value_text =
        ap (λ s. trim_space (r ++ s)) (sym (append-nil value_text))
        ∙ trim_space-pad r value_text [] wr refl t.0 in
      ap (try_operators (le ∷ ge ∷ lt ∷ gt ∷ [])) (
        trim_space-pad p core u wp wu (IsTight-append name _ value_text n.0.0 t.0.1)
        ∙ regroup name q (operator_text op) r value_text)
      ∙ try_operators-split op (name ++ q) (r ++ value_text) o
          (all-append is_plain name q n.1 (spaces-plain q wq))
          (all-append is_plain r value_text (spaces-plain r wr) t.1)
      ∙ ap₂ (parse_parts op) before behind
      ∙ parse_parts-ok op name value_text value v f k n.0

  -- What ParseTrigger promises of the trigger that it returns.
  pub record IsWellFormed (t : Trigger F) : Type 0 where
    pub metric_known : is_known t.metric ≡ true
    pub operator_valid : is_operator t.operator ≡ true
    pub value_finite : (fl.is_nan t.value || fl.is_inf t.value) ≡ false

  parse_parts-IsWellFormed :
      (op : Operator) (name value_text : Text) (t : Trigger F)
      → is_operator op ≡ true
      → parse_parts op name value_text ≡ ok t
      → IsWellFormed t
  unfolding parse_parts
  parse_parts-IsWellFormed op name value_text t o h = ground arith

  try_operators-IsWellFormed :
      (ops : List Operator) (s : Text) (t : Trigger F)
      → all is_operator ops ≡ true
      → try_operators ops s ≡ ok t
      → IsWellFormed t
  unfolding try_operators
  try_operators-IsWellFormed [] s t o h = cc
  try_operators-IsWellFormed (op ∷ ops) s t o h =
      elim (Option-cases (split_first (operator_text op) s)) [
        | inl e ↦ try_operators-IsWellFormed ops s t (ground arith) (rw (e, try_operators) at h)
        | inr (parts, e) ↦
            parse_parts-IsWellFormed op _ _ t (ground arith) (rw (e, try_operators) at h)
      ]

  -- Whatever ParseTrigger accepts has one of the six metrics, one of the four operators, and a value
  -- that is neither NaN nor infinite.
  pub parse_trigger-IsWellFormed :
      (s : Text) (t : Trigger F) → parse_trigger s ≡ ok t → IsWellFormed t
  unfolding parse_trigger
  parse_trigger-IsWellFormed s t h =
      try_operators-IsWellFormed (le ∷ ge ∷ lt ∷ gt ∷ []) (trim_space s) t refl h
