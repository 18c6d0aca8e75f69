-- ===== src/Ocudu/Config.antt =====
-- pkg/provider/ocudu/config.go: GenerateConfig up to the execution of its template.
use ntn_operators.Base.{
  ℕ, ◌==◌, Bool, true, false, not, ◌&&◌, ◌||◌, Option, none, some, [], ◌∷◌, is_empty, Text, codes,
  ℤ, pos, ltb_ℤ, if◌then◌else◌,
}
use ntn_operators.Ocudu.{CellSpec, Scales, ConfigData, SibSchedule, EphemerisOrbital, EphemerisEcef}

-- The code points that are replaced by a blank; U+0000 is removed.
abbrev pub breaks_line : ℕ → Bool
breaks_line c = c == 0x0a || c == 0x0d || c == 0x85 || c == 0x2028 || c == 0x2029

unfoldable pub sanitize_comment : Text → Text
sanitize_comment [] = []
sanitize_comment (c ∷ s) =
    let rest = sanitize_comment s in
    if breaks_line c then b' ' ∷ rest else if c == 0 then rest else c ∷ rest

abbrev pub is_zero_int : ℤ → Bool
is_zero_int x = not (ltb_ℤ x (pos 0)) && not (ltb_ℤ (pos 0) x)

abbrev pub positive_or : ℤ → ℤ → ℤ
positive_or x default = if ltb_ℤ (pos 0) x then x else default

module _ {ℓ} {F : Type ℓ} (sc : Scales F) where
  unfoldable pub base_config_data : CellSpec → ConfigData F
  unfolding sanitize_comment
  base_config_data spec = record {
    payload_type =
        sanitize_comment
          (if is_empty spec.payload_type then codes "transparent" else spec.payload_type);
    koffset = spec.cell_specific_koffset;
    ta_common = sc.ta_common_step_us spec.ta_common;
    ta_info_extended = false;
    ta_common_drift = sc.zero_value;
    ta_common_drift_variant = sc.zero_value;
    ta_common_offset = sc.zero_value;
    use_orbital = false;
    eph_pos_x = sc.zero_value;
    eph_pos_y = sc.zero_value;
    eph_pos_z = sc.zero_value;
    eph_vel_x = sc.zero_value;
    eph_vel_y = sc.zero_value;
    eph_vel_z = sc.zero_value;
    orb_semi_major_axis = pos 0;
    orb_eccentricity = sc.zero_value;
    orb_inclination = sc.zero_value;
    orb_right_ascension = sc.zero_value;
    orb_arg_of_periapsis = sc.zero_value;
    orb_mean_anomaly = sc.zero_value;
    has_epoch_time = false;
    epoch_sfn = pos 0;
    epoch_subframe_number = pos 0;
    has_feeder_link = false;
    feeder_doppler_compensation = false;
    feeder_dl_freq = pos 0;
    feeder_ul_freq = pos 0;
    has_gateway_location = false;
    gateway_latitude = sc.zero_value;
    gateway_longitude = sc.zero_value;
    gateway_altitude = pos 0;
    has_ncells = false;
    ncells = [];
    has_reference_location = false;
    ref_latitude = sc.zero_value;
    ref_longitude = sc.zero_value;
    has_distance_threshold = false;
    distance_threshold = pos 0;
    has_moving_ref_location = false;
    moving_ref_latitude = sc.zero_value;
    moving_ref_longitude = sc.zero_value;
    has_polarization = false;
    polarization_dl = [];
    polarization_ul = [];
    ta_report_set = false;
    ta_report = false;
    ul_sync_validity_dur_set = false;
    ul_sync_validity_dur = pos 0;
    pdsch_max_harq_retxs = pos 0;
    prach_max_msg3_harq_retx = pos 0;
    rrc_guard_time_ms = pos 12800;
    si_window_length = pos 5;
    si_period = pos 16;
    si_window_position = pos 2;
  }

  unfoldable pub apply_ta_info : CellSpec → ConfigData F → ConfigData F
  apply_ta_info spec d = elim spec.ta_info [
    | none ↦ d
    | some ta ↦
        let with_ta = record d { ta_common = sc.ta_common_step_us ta.ta_common } in
        if not (is_zero_int ta.ta_common_drift)
          || not (is_zero_int ta.ta_common_drift_variant)
          || not (is_zero_int ta.ta_common_offset)
        then record with_ta {
          ta_info_extended = true;
          ta_common_drift = sc.ta_common_drift_step ta.ta_common_drift;
          ta_common_drift_variant = sc.ta_common_drift_var_step ta.ta_common_drift_variant;
          ta_common_offset = sc.ta_common_step_us ta.ta_common_offset;
        }
        else with_ta
  ]

  abbrev pub apply_epoch_time : CellSpec → ConfigData F → ConfigData F
  apply_epoch_time spec d = elim spec.epoch_time [
    | none ↦ d
    | some e ↦ record d {
      has_epoch_time = true;
      epoch_sfn = e.sfn;
      epoch_subframe_number = e.subframe_number;
    }
  ]

  abbrev pub apply_feeder_link : CellSpec → ConfigData F → ConfigData F
  apply_feeder_link spec d = elim spec.feeder_link_info [
    | none ↦ d
    | some f ↦ record d {
      has_feeder_link = true;
      feeder_doppler_compensation = f.enable_doppler_compensation;
      feeder_dl_freq = f.dl_freq_hz;
      feeder_ul_freq = f.ul_freq_hz;
    }
  ]

  abbrev pub apply_gateway : CellSpec → ConfigData F → ConfigData F
  apply_gateway spec d = elim spec.ntn_gateway_location [
    | none ↦ d
    | some g ↦ record d {
      has_gateway_location = true;
      gateway_latitude = sc.one_e_minus4_deg_to_deg g.place.latitude;
      gateway_longitude = sc.one_e_minus4_deg_to_deg g.place.longitude;
      gateway_altitude = g.altitude;
    }
  ]

  abbrev pub apply_moving_ref : CellSpec → ConfigData F → ConfigData F
  apply_moving_ref spec d = elim spec.moving_ref_location [
    | none ↦ d
    | some l ↦ record d {
      has_moving_ref_location = true;
      moving_ref_latitude = sc.one_e_minus4_deg_to_deg l.latitude;
      moving_ref_longitude = sc.one_e_minus4_deg_to_deg l.longitude;
    }
  ]

  abbrev pub apply_polarization : CellSpec → ConfigData F → ConfigData F
  apply_polarization spec d = elim spec.polarization [
    | none ↦ d
    | some p ↦
        if not (is_empty p.dl) || not (is_empty p.ul)
        then record d { has_polarization = true; polarization_dl = p.dl; polarization_ul = p.ul }
        else d
  ]

  abbrev pub apply_ta_report : CellSpec → ConfigData F → ConfigData F
  apply_ta_report spec d = elim spec.ta_report [
    | none ↦ d
    | some b ↦ record d { ta_report_set = true; ta_report = b }
  ]

  abbrev pub apply_ul_sync : CellSpec → ConfigData F → ConfigData F
  apply_ul_sync spec d = elim spec.ul_sync_validity_dur [
    | none ↦ d
    | some n ↦ record d { ul_sync_validity_dur_set = true; ul_sync_validity_dur = n }
  ]

  unfoldable pub apply_optional_ntn_fields : CellSpec → ConfigData F → ConfigData F
  apply_optional_ntn_fields spec d = apply_ul_sync spec (
      apply_ta_report spec (
        apply_polarization spec (
          apply_moving_ref spec
            (apply_gateway spec (apply_feeder_link spec (apply_epoch_time spec d))))))

  abbrev pub apply_ncells : CellSpec → ConfigData F → ConfigData F
  apply_ncells spec d =
      if is_empty spec.neighbor_cells
      then d
      else record d { has_ncells = true; ncells = spec.neighbor_cells }

  abbrev pub apply_reference_location : CellSpec → ConfigData F → ConfigData F
  apply_reference_location spec d = elim spec.reference_location [
    | none ↦ d
    | some l ↦ record d {
      has_reference_location = true;
      ref_latitude = sc.one_e_minus4_deg_to_deg l.latitude;
      ref_longitude = sc.one_e_minus4_deg_to_deg l.longitude;
    }
  ]

  abbrev pub apply_distance_threshold : CellSpec → ConfigData F → ConfigData F
  apply_distance_threshold spec d = elim spec.distance_threshold [
    | none ↦ d
    | some n ↦ record d { has_distance_threshold = true; distance_threshold = n }
  ]

  unfoldable pub apply_stage3_fields : CellSpec → ConfigData F → ConfigData F
  apply_stage3_fields spec d =
      apply_distance_threshold spec (apply_reference_location spec (apply_ncells spec d))

  abbrev pub apply_sib_schedule : Option SibSchedule → ConfigData F → ConfigData F
  apply_sib_schedule none d = d
  apply_sib_schedule (some s) d = record d {
    si_window_length = positive_or s.si_window_length d.si_window_length;
    si_period = positive_or s.si_period d.si_period;
    si_window_position = elim s.si_window_position [ none ↦ d.si_window_position | some n ↦ n ];
  }

  unfoldable pub apply_cell_overrides : CellSpec → ConfigData F → ConfigData F
  apply_cell_overrides spec d = elim spec.cell_overrides [
    | none ↦ d
    | some o ↦ apply_sib_schedule o.sib_schedule (record d {
      pdsch_max_harq_retxs = positive_or o.pdsch_max_harq_retxs d.pdsch_max_harq_retxs;
      prach_max_msg3_harq_retx = positive_or o.prach_max_msg3_harq_retx d.prach_max_msg3_harq_retx;
      rrc_guard_time_ms = positive_or o.rrc_guard_time_ms d.rrc_guard_time_ms;
    })
  ]

  abbrev pub set_orbital : EphemerisOrbital → ConfigData F → ConfigData F
  set_orbital o d = record d {
    use_orbital = true;
    orb_semi_major_axis = o.semi_major_axis;
    orb_eccentricity = sc.eccentricity_scale o.eccentricity;
    orb_inclination = sc.milli_deg_to_rad o.inclination;
    orb_right_ascension = sc.milli_deg_to_rad o.right_ascension;
    orb_arg_of_periapsis = sc.milli_deg_to_rad o.arg_of_periapsis;
    orb_mean_anomaly = sc.milli_deg_to_rad o.mean_anomaly;
  }

  abbrev pub set_ecef : EphemerisEcef → ConfigData F → ConfigData F
  set_ecef e d = record d {
    eph_pos_x = sc.ecef_position_step e.pos_x;
    eph_pos_y = sc.ecef_position_step e.pos_y;
    eph_pos_z = sc.ecef_position_step e.pos_z;
    eph_vel_x = sc.ecef_velocity_step e.vel_x;
    eph_vel_y = sc.ecef_velocity_step e.vel_y;
    eph_vel_z = sc.ecef_velocity_step e.vel_z;
  }

  -- `none` is one of the two errors: both ephemerides are set, or neither.
  unfoldable pub apply_ephemeris :
      Option EphemerisEcef → Option EphemerisOrbital → ConfigData F → Option (ConfigData F)
  apply_ephemeris (some e) (some o) d = none
  apply_ephemeris none (some o) d = some (set_orbital o d)
  apply_ephemeris (some e) none d = some (set_ecef e d)
  apply_ephemeris none none d = none

  -- GenerateConfig, up to the d that its template prints.
  unfoldable pub config_data : CellSpec → Option (ConfigData F)
  unfolding base_config_data apply_ta_info apply_optional_ntn_fields apply_stage3_fields
      apply_cell_overrides apply_ephemeris
  config_data spec = apply_ephemeris spec.ephemeris_ecef spec.ephemeris_orbital (
      apply_cell_overrides spec (
        apply_stage3_fields spec
          (apply_optional_ntn_fields spec (apply_ta_info spec (base_config_data spec)))))
