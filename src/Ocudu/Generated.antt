-- ===== src/Ocudu/Generated.antt =====
-- pkg/provider/ocudu/config.go: what the generated configuration says of the spec.
use ntn_operators.Base.{
  ℕ, ◌==◌, ◌≡◌, ◌↔◌, refl, sym, subst, ap, ◌∙◌, Bool, true, false, not, ◌||◌, all, Option, none,
  some, [], ◌∷◌, is_empty, Text, codes, arith, if◌then◌else◌,
}
use ntn_operators.Ocudu.{CellSpec, Scales, ConfigData, EphemerisEcef, EphemerisOrbital}
use ntn_operators.Ocudu.Config.{
  apply_epoch_time, apply_feeder_link, apply_gateway, apply_moving_ref, apply_polarization,
  apply_ta_report, apply_ul_sync, apply_ncells, apply_reference_location, apply_distance_threshold,
  sanitize_comment, set_ecef, set_orbital, base_config_data, apply_ta_info,
  apply_optional_ntn_fields, apply_stage3_fields, apply_cell_overrides, apply_ephemeris,
  config_data,
}

abbrev pub is_set {ℓ} : {A : Type ℓ} → Option A → Bool
is_set none = false
is_set (some x) = true

-- Whether a code point ends a line of YAML or of a text: LF, CR, NEL, LS, PS; or is U+0000.
abbrev pub is_line_end : ℕ → Bool
is_line_end c = c == 10 || c == 13 || c == 133 || c == 8232 || c == 8233 || c == 0

-- A text on one line.
abbrev pub is_single_line : Text → Bool
is_single_line s = all (λ (c : ℕ). not (is_line_end c)) s

pub sanitize_comment-single_line : (s : Text) → is_single_line (sanitize_comment s) ≡ true
unfolding sanitize_comment
sanitize_comment-single_line [] = refl
sanitize_comment-single_line (c ∷ s) = ground (arith, sanitize_comment-single_line s)

some_inv {ℓ} : {A : Type ℓ} {x y : A} → some x ≡ some y → x ≡ y
some_inv h = cc

cons-single_line :
    (c : ℕ) (s : Text)
    → is_single_line (c ∷ s) ≡ true
    → (is_line_end c ≡ false) × (is_single_line s ≡ true)
cons-single_line c s h = (ground (arith, h), ground (arith, h))

sanitize_comment-keeps : (s : Text) → is_single_line s ≡ true → sanitize_comment s ≡ s
unfolding sanitize_comment
sanitize_comment-keeps [] h = refl
sanitize_comment-keeps (c ∷ s) h =
    let (line, rest) = cons-single_line c s h in ground (arith, line, sanitize_comment-keeps s rest)

module _ {ℓ} {F : Type ℓ} (sc : Scales F) where
  -- The data print this ephemeris, each value by its scale.
  pub record IsEcefSection (e : EphemerisEcef) (d : ConfigData F) : Type ℓ where
    pub pos_x : d.eph_pos_x ≡ sc.ecef_position_step e.pos_x
    pub pos_y : d.eph_pos_y ≡ sc.ecef_position_step e.pos_y
    pub pos_z : d.eph_pos_z ≡ sc.ecef_position_step e.pos_z
    pub vel_x : d.eph_vel_x ≡ sc.ecef_velocity_step e.vel_x
    pub vel_y : d.eph_vel_y ≡ sc.ecef_velocity_step e.vel_y
    pub vel_z : d.eph_vel_z ≡ sc.ecef_velocity_step e.vel_z

  pub record IsOrbitalSection (o : EphemerisOrbital) (d : ConfigData F) : Type ℓ where
    pub semi_major_axis : d.orb_semi_major_axis ≡ o.semi_major_axis
    pub eccentricity : d.orb_eccentricity ≡ sc.eccentricity_scale o.eccentricity
    pub inclination : d.orb_inclination ≡ sc.milli_deg_to_rad o.inclination
    pub right_ascension : d.orb_right_ascension ≡ sc.milli_deg_to_rad o.right_ascension
    pub arg_of_periapsis : d.orb_arg_of_periapsis ≡ sc.milli_deg_to_rad o.arg_of_periapsis
    pub mean_anomaly : d.orb_mean_anomaly ≡ sc.milli_deg_to_rad o.mean_anomaly

  set_ecef-IsEcefSection :
      (e : EphemerisEcef) (p : ConfigData F) → IsEcefSection e (set_ecef sc e p)
  set_ecef-IsEcefSection e p = record {
    pos_x = refl;
    pos_y = refl;
    pos_z = refl;
    vel_x = refl;
    vel_y = refl;
    vel_z = refl;
  }

  set_orbital-IsOrbitalSection :
      (o : EphemerisOrbital) (p : ConfigData F) → IsOrbitalSection o (set_orbital sc o p)
  set_orbital-IsOrbitalSection o p = record {
    semi_major_axis = refl;
    eccentricity = refl;
    inclination = refl;
    right_ascension = refl;
    arg_of_periapsis = refl;
    mean_anomaly = refl;
  }

  apply_ephemeris-ecef :
      (e : EphemerisEcef) (o : Option EphemerisOrbital) (p d : ConfigData F)
      → apply_ephemeris sc (some e) o p ≡ some d
      → IsEcefSection e d
  unfolding apply_ephemeris
  apply_ephemeris-ecef e (some o) p d h = absurd (cc)
  apply_ephemeris-ecef e none p d h =
      subst (IsEcefSection e) (some_inv h) (set_ecef-IsEcefSection e p)

  apply_ephemeris-orbital :
      (e : Option EphemerisEcef) (o : EphemerisOrbital) (p d : ConfigData F)
      → apply_ephemeris sc e (some o) p ≡ some d
      → IsOrbitalSection o d
  unfolding apply_ephemeris
  apply_ephemeris-orbital (some e) o p d h = absurd (cc)
  apply_ephemeris-orbital none o p d h =
      subst (IsOrbitalSection o) (some_inv h) (set_orbital-IsOrbitalSection o p)

module _ {ℓ} {F : Type ℓ} where
  -- The data d' have the payload type of d, and its kind of ephemeris.
  abbrev Keeps : ConfigData F → ConfigData F → Type 0
  Keeps d' d = (d'.use_orbital ≡ d.use_orbital) × (d'.payload_type ≡ d.payload_type)

  Keeps-trans : (a b c : ConfigData F) → Keeps a b → Keeps b c → Keeps a c
  Keeps-trans a b c h k = (h.0 ∙ k.0, h.1 ∙ k.1)

module _ {ℓ} {F : Type ℓ} (sc : Scales F) where
  apply_ephemeris-none :
      (e : Option EphemerisEcef) (o : Option EphemerisOrbital) (p : ConfigData F)
      → (apply_ephemeris sc e o p ≡ none) ↔ (is_set e ≡ is_set o)
  unfolding apply_ephemeris
  apply_ephemeris-none (some e) (some o) p = (λ h. refl, λ h. refl)
  apply_ephemeris-none none (some o) p = (λ h. absurd (cc), λ h. absurd (cc))
  apply_ephemeris-none (some e) none p = (λ h. absurd (cc), λ h. absurd (cc))
  apply_ephemeris-none none none p = (λ h. refl, λ h. refl)

  apply_ephemeris-some :
      (e : Option EphemerisEcef) (o : Option EphemerisOrbital) (p d : ConfigData F)
      → p.use_orbital ≡ false
      → apply_ephemeris sc e o p ≡ some d
      → (is_set e ≡ not (is_set o)) × (d.use_orbital ≡ is_set o) × (d.payload_type ≡ p.payload_type)
  unfolding apply_ephemeris
  apply_ephemeris-some (some e) (some o) p d k h = absurd (cc)
  apply_ephemeris-some none (some o) p d k h = (
    refl,
    sym (ap (λ x. x.use_orbital) (some_inv h)),
    sym (ap (λ x. x.payload_type) (some_inv h)),
  )
  apply_ephemeris-some (some e) none p d k h = (
    refl,
    sym (ap (λ x. x.use_orbital) (some_inv h)) ∙ k,
    sym (ap (λ x. x.payload_type) (some_inv h)),
  )
  apply_ephemeris-some none none p d k h = absurd (cc)

module _ {ℓ} {F : Type ℓ} (sc : Scales F) (spec : CellSpec) where
  ta_info-Keeps : (d : ConfigData F) → Keeps (apply_ta_info sc spec d) d
  unfolding apply_ta_info
  ta_info-Keeps d = (ground arith, ground arith)

  epoch_time-Keeps : (d : ConfigData F) → Keeps (apply_epoch_time sc spec d) d
  epoch_time-Keeps d = (ground arith, ground arith)

  feeder_link-Keeps : (d : ConfigData F) → Keeps (apply_feeder_link sc spec d) d
  feeder_link-Keeps d = (ground arith, ground arith)

  gateway-Keeps : (d : ConfigData F) → Keeps (apply_gateway sc spec d) d
  gateway-Keeps d = (ground arith, ground arith)

  moving_ref-Keeps : (d : ConfigData F) → Keeps (apply_moving_ref sc spec d) d
  moving_ref-Keeps d = (ground arith, ground arith)

  polarization-Keeps : (d : ConfigData F) → Keeps (apply_polarization sc spec d) d
  polarization-Keeps d = (ground arith, ground arith)

  ta_report-Keeps : (d : ConfigData F) → Keeps (apply_ta_report sc spec d) d
  ta_report-Keeps d = (ground arith, ground arith)

  ul_sync-Keeps : (d : ConfigData F) → Keeps (apply_ul_sync sc spec d) d
  ul_sync-Keeps d = (ground arith, ground arith)

  ncells-Keeps : (d : ConfigData F) → Keeps (apply_ncells sc spec d) d
  ncells-Keeps d = (ground arith, ground arith)

  reference_location-Keeps : (d : ConfigData F) → Keeps (apply_reference_location sc spec d) d
  reference_location-Keeps d = (ground arith, ground arith)

  distance_threshold-Keeps : (d : ConfigData F) → Keeps (apply_distance_threshold sc spec d) d
  distance_threshold-Keeps d = (ground arith, ground arith)

  optional-Keeps : (d : ConfigData F) → Keeps (apply_optional_ntn_fields sc spec d) d
  unfolding apply_optional_ntn_fields
  optional-Keeps d0 =
      let d1 = apply_epoch_time sc spec d0 in
      let d2 = apply_feeder_link sc spec d1 in
      let d3 = apply_gateway sc spec d2 in
      let d4 = apply_moving_ref sc spec d3 in
      let d5 = apply_polarization sc spec d4 in
      let d6 = apply_ta_report sc spec d5 in
      let d7 = apply_ul_sync sc spec d6 in
      Keeps-trans d7 d6 d0 (ul_sync-Keeps d6) (
        Keeps-trans d6 d5 d0 (ta_report-Keeps d5) (
          Keeps-trans d5 d4 d0 (polarization-Keeps d4) (
            Keeps-trans d4 d3 d0 (moving_ref-Keeps d3) (
              Keeps-trans d3 d2 d0 (gateway-Keeps d2)
                (Keeps-trans d2 d1 d0 (feeder_link-Keeps d1) (epoch_time-Keeps d0))))))

  stage3-Keeps : (d : ConfigData F) → Keeps (apply_stage3_fields sc spec d) d
  unfolding apply_stage3_fields
  stage3-Keeps d0 =
      let d1 = apply_ncells sc spec d0 in
      let d2 = apply_reference_location sc spec d1 in
      let d3 = apply_distance_threshold sc spec d2 in
      Keeps-trans d3 d2 d0 (distance_threshold-Keeps d2)
        (Keeps-trans d2 d1 d0 (reference_location-Keeps d1) (ncells-Keeps d0))

  overrides-Keeps : (d : ConfigData F) → Keeps (apply_cell_overrides sc spec d) d
  unfolding apply_cell_overrides
  overrides-Keeps d = (ground arith, ground arith)

  -- The data before the ephemeris.
  abbrev prepared : ConfigData F
  prepared = apply_cell_overrides sc spec (
      apply_stage3_fields sc spec
        (apply_optional_ntn_fields sc spec (apply_ta_info sc spec (base_config_data sc spec))))

  prepared-Keeps : Keeps prepared (base_config_data sc spec)
  prepared-Keeps =
      let d0 = base_config_data sc spec in
      let d1 = apply_ta_info sc spec d0 in
      let d2 = apply_optional_ntn_fields sc spec d1 in
      let d3 = apply_stage3_fields sc spec d2 in
      Keeps-trans prepared d3 d0 (overrides-Keeps d3) (
        Keeps-trans d3 d2 d0 (stage3-Keeps d2)
          (Keeps-trans d2 d1 d0 (optional-Keeps d1) (ta_info-Keeps d0)))

  -- The payload type, with its default.
  abbrev pub payload_text : Text
  payload_text = if is_empty spec.payload_type then codes "transparent" else spec.payload_type

  base-payload :
      is_single_line payload_text ≡ true → (base_config_data sc spec).payload_type ≡ payload_text
  unfolding base_config_data
  base-payload h = sanitize_comment-keeps payload_text h

  base-single_line : is_single_line (base_config_data sc spec).payload_type ≡ true
  unfolding base_config_data
  base-single_line = sanitize_comment-single_line payload_text

  base-orbital : (base_config_data sc spec).use_orbital ≡ false
  unfolding base_config_data
  base-orbital = refl

  -- What the configuration of a spec says.
  pub record IsGenerated (d : ConfigData F) : Type ℓ where
    pub one_ephemeris : is_set spec.ephemeris_ecef ≡ not (is_set spec.ephemeris_orbital)
    pub orbital : d.use_orbital ≡ is_set spec.ephemeris_orbital
    pub ecef_section : (e : EphemerisEcef) → spec.ephemeris_ecef ≡ some e → IsEcefSection sc e d
    pub orbital_section :
        (o : EphemerisOrbital) → spec.ephemeris_orbital ≡ some o → IsOrbitalSection sc o d
    pub single_line : is_single_line d.payload_type ≡ true
    pub payload : is_single_line payload_text ≡ true → d.payload_type ≡ payload_text

  -- GenerateConfig succeeds exactly for a spec with one ephemeris. What the template prints then has
  -- the flag of that ephemeris, and each of its values by its scale. The payload type in the header
  -- comment has no LF, CR, NEL, LS, PS or U+0000, whatever the spec says, so that it can add no line
  -- to the configuration; one that has none of them in the spec, or the default of an empty one, is
  -- printed as it is.
  pub config_data-IsGenerated :
      ((config_data sc spec ≡ none) ↔ (is_set spec.ephemeris_ecef ≡ is_set spec.ephemeris_orbital))
      × ((d : ConfigData F) → config_data sc spec ≡ some d → IsGenerated d)
  unfolding config_data
  config_data-IsGenerated = (
    apply_ephemeris-none sc spec.ephemeris_ecef spec.ephemeris_orbital prepared,
    λ d h.
        let x =
          apply_ephemeris-some sc spec.ephemeris_ecef spec.ephemeris_orbital prepared d
            (prepared-Keeps.0 ∙ base-orbital) h in
        record {
          one_ephemeris = x.0;
          orbital = x.1;
          ecef_section = λ e k. apply_ephemeris-ecef sc e spec.ephemeris_orbital prepared d (
              ap
                (λ (y : Option EphemerisEcef). apply_ephemeris sc y spec.ephemeris_orbital prepared)
                (sym k)
              ∙ h);
          orbital_section = λ o k. apply_ephemeris-orbital sc spec.ephemeris_ecef o prepared d (
              ap
                (λ (y : Option EphemerisOrbital). apply_ephemeris sc spec.ephemeris_ecef y prepared)
                (sym k)
              ∙ h);
          payload = λ k. (x.2 ∙ prepared-Keeps.1) ∙ base-payload k;
          single_line = ap is_single_line (x.2 ∙ prepared-Keeps.1) ∙ base-single_line;
        },
  )
