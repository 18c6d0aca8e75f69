-- ===== src/Tests/Ocudu.antt =====
-- The theorem on the generated configuration at a concrete spec, and test runs.
use ntn_operators.Base.{◌≡◌, ◌↔◌, refl, true, none, some, [], ◌∷◌, ◌++◌, codes, ℤ, pos}
use ntn_operators.Ocudu.{CellSpec, Scales, ConfigData, EphemerisEcef}
use ntn_operators.Ocudu.Config.{
  sanitize_comment, base_config_data, apply_cell_overrides, config_data,
}
use ntn_operators.Ocudu.Generated.{is_set, IsGenerated, config_data-IsGenerated}

abbrev scales : Scales ℤ
scales = record {
  zero_value = pos 0;
  ta_common_step_us = λ x. x;
  ta_common_drift_step = λ x. x;
  ta_common_drift_var_step = λ x. x;
  eccentricity_scale = λ x. x;
  one_e_minus4_deg_to_deg = λ x. x;
  milli_deg_to_rad = λ x. x;
  ecef_position_step = λ x. x;
  ecef_velocity_step = λ x. x;
}

abbrev ecef : EphemerisEcef
ecef = record {
  pos_x = pos 1;
  pos_y = pos 2;
  pos_z = pos 3;
  vel_x = pos 4;
  vel_y = pos 5;
  vel_z = pos 6;
}

-- A payload type that tries to add a line.
abbrev cell : CellSpec
cell = record {
  payload_type = codes "x" ++ (10 ∷ codes "evil: 1");
  cell_specific_koffset = pos 240;
  ta_common = pos 7;
  ta_info = none;
  epoch_time = none;
  feeder_link_info = none;
  ntn_gateway_location = none;
  moving_ref_location = none;
  polarization = none;
  ta_report = some true;
  ul_sync_validity_dur = none;
  neighbor_cells = [];
  reference_location = none;
  distance_threshold = some (pos 50);
  ephemeris_orbital = none;
  ephemeris_ecef = some ecef;
  cell_overrides = some (record {
    pdsch_max_harq_retxs = pos 4;
    prach_max_msg3_harq_retx = pos 0;
    rrc_guard_time_ms = pos 0;
    sib_schedule = none;
  });
}

config_data-IsGenerated_example :
    ((config_data scales cell ≡ none)
      ↔ (is_set cell.ephemeris_ecef ≡ is_set cell.ephemeris_orbital))
    × ((d : ConfigData ℤ) → config_data scales cell ≡ some d → IsGenerated scales cell d)
config_data-IsGenerated_example = config_data-IsGenerated scales cell

sanitize_comment_test : sanitize_comment cell.payload_type ≡ codes "x evil: 1"
unfolding sanitize_comment
sanitize_comment_test = refl

overrides_test :
    (apply_cell_overrides scales cell (base_config_data scales cell)).pdsch_max_harq_retxs ≡ pos 4
unfolding apply_cell_overrides base_config_data
overrides_test = refl
