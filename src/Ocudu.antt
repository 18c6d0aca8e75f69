-- ===== src/Ocudu.antt =====
-- pkg/provider/ocudu/config.go: the part of an NTNCellConfig spec that the configuration is made from,
-- and configData, what its template prints. An int is an ℤ.
use ntn_operators.Base.{◌≡◌, Bool, Option, List, Text, ℤ}
pub mod Config
pub mod Generated

pub record TaInfo : Type 0 where
  pub ta_common : ℤ
  pub ta_common_drift : ℤ
  pub ta_common_drift_variant : ℤ
  pub ta_common_offset : ℤ

pub record EpochTime : Type 0 where
  pub sfn : ℤ
  pub subframe_number : ℤ

pub record FeederLink : Type 0 where
  pub enable_doppler_compensation : Bool
  pub dl_freq_hz : ℤ
  pub ul_freq_hz : ℤ

pub record Location : Type 0 where
  pub latitude : ℤ
  pub longitude : ℤ

pub record Gateway : Type 0 where
  pub place : Location
  pub altitude : ℤ

pub record Polarization : Type 0 where
  pub dl : Text
  pub ul : Text

pub record NeighborCell : Type 0 where
  pub physical_cell_id : ℤ
  pub frequency : ℤ

pub record EphemerisOrbital : Type 0 where
  pub semi_major_axis : ℤ
  pub eccentricity : ℤ
  pub inclination : ℤ
  pub right_ascension : ℤ
  pub arg_of_periapsis : ℤ
  pub mean_anomaly : ℤ

pub record EphemerisEcef : Type 0 where
  pub pos_x : ℤ
  pub pos_y : ℤ
  pub pos_z : ℤ
  pub vel_x : ℤ
  pub vel_y : ℤ
  pub vel_z : ℤ

pub record SibSchedule : Type 0 where
  pub si_window_length : ℤ
  pub si_period : ℤ
  pub si_window_position : Option ℤ

pub record CellOverrides : Type 0 where
  pub pdsch_max_harq_retxs : ℤ
  pub prach_max_msg3_harq_retx : ℤ
  pub rrc_guard_time_ms : ℤ
  pub sib_schedule : Option SibSchedule

pub record CellSpec : Type 0 where
  pub payload_type : Text
  pub cell_specific_koffset : ℤ
  pub ta_common : ℤ
  pub ta_info : Option TaInfo
  pub epoch_time : Option EpochTime
  pub feeder_link_info : Option FeederLink
  pub ntn_gateway_location : Option Gateway
  pub moving_ref_location : Option Location
  pub polarization : Option Polarization
  pub ta_report : Option Bool
  pub ul_sync_validity_dur : Option ℤ
  pub neighbor_cells : List NeighborCell
  pub reference_location : Option Location
  pub distance_threshold : Option ℤ
  pub ephemeris_orbital : Option EphemerisOrbital
  pub ephemeris_ecef : Option EphemerisEcef
  pub cell_overrides : Option CellOverrides

-- float64(x) * step, for the steps of the source.
pub record Scales {ℓ} (F : Type ℓ) : Type ℓ where
  pub zero_value : F
  pub ta_common_step_us : ℤ → F
  pub ta_common_drift_step : ℤ → F
  pub ta_common_drift_var_step : ℤ → F
  pub eccentricity_scale : ℤ → F
  pub one_e_minus4_deg_to_deg : ℤ → F
  pub milli_deg_to_rad : ℤ → F
  pub ecef_position_step : ℤ → F
  pub ecef_velocity_step : ℤ → F

pub record ConfigData {ℓ} (F : Type ℓ) : Type ℓ where
  pub payload_type : Text
  pub koffset : ℤ
  pub ta_common : F
  pub ta_info_extended : Bool
  pub ta_common_drift : F
  pub ta_common_drift_variant : F
  pub ta_common_offset : F
  pub use_orbital : Bool
  pub eph_pos_x : F
  pub eph_pos_y : F
  pub eph_pos_z : F
  pub eph_vel_x : F
  pub eph_vel_y : F
  pub eph_vel_z : F
  pub orb_semi_major_axis : ℤ
  pub orb_eccentricity : F
  pub orb_inclination : F
  pub orb_right_ascension : F
  pub orb_arg_of_periapsis : F
  pub orb_mean_anomaly : F
  pub has_epoch_time : Bool
  pub epoch_sfn : ℤ
  pub epoch_subframe_number : ℤ
  pub has_feeder_link : Bool
  pub feeder_doppler_compensation : Bool
  pub feeder_dl_freq : ℤ
  pub feeder_ul_freq : ℤ
  pub has_gateway_location : Bool
  pub gateway_latitude : F
  pub gateway_longitude : F
  pub gateway_altitude : ℤ
  pub has_ncells : Bool
  pub ncells : List NeighborCell
  pub has_reference_location : Bool
  pub ref_latitude : F
  pub ref_longitude : F
  pub has_distance_threshold : Bool
  pub distance_threshold : ℤ
  pub has_moving_ref_location : Bool
  pub moving_ref_latitude : F
  pub moving_ref_longitude : F
  pub has_polarization : Bool
  pub polarization_dl : Text
  pub polarization_ul : Text
  pub ta_report_set : Bool
  pub ta_report : Bool
  pub ul_sync_validity_dur_set : Bool
  pub ul_sync_validity_dur : ℤ
  pub pdsch_max_harq_retxs : ℤ
  pub prach_max_msg3_harq_retx : ℤ
  pub rrc_guard_time_ms : ℤ
  pub si_window_length : ℤ
  pub si_period : ℤ
  pub si_window_position : ℤ
