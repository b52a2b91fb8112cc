-- ===== src/Conf/PathConf.antt =====
-- internal/conf/path.go: the `Path` configuration, its equality and its derived tests.
-- A regular expression is its text, a duration its nanoseconds, a float64 an opaque code that is
-- only compared. `others` holds the values of the fields that no modelled function reads or
-- copies, in the order of the source, so that equality still is equality of the whole struct.
use mathlib.Core.Bool.{decide, decide_iff}
use plux_mtx.Base.{
  ℕ, String, Bool, true, false, ◌&&◌, not, Option, List, ◌≡◌, ◌↔◌, ◌==s◌, text_discrete, ℕ_discrete,
}
use plux_mtx.Base.Int.{ℤ}

pub data RecordFormat : Type 0 where
  fmp4 mpegts : RecordFormat

pub record PathConf : Type 0 where
  pub regexp : Option String
  pub name : String
  pub source : String
  pub source_on_demand : Bool
  pub source_on_demand_start_timeout : ℕ
  pub source_on_demand_close_after : ℕ
  pub max_readers : ℤ
  pub fallback : String
  pub ptz : Bool
  pub ptz_source : String
  pub records : Bool  -- Record
  pub record_path : String
  pub record_format : RecordFormat
  pub record_part_duration : ℕ
  pub record_max_part_size : ℕ
  pub record_segment_duration : ℕ
  pub record_delete_after : ℕ
  pub override_publisher : Bool
  pub srt_publish_passphrase : String
  pub source_redirect : String
  pub rpi_camera_brightness : ℕ
  pub rpi_camera_contrast : ℕ
  pub rpi_camera_saturation : ℕ
  pub rpi_camera_sharpness : ℕ
  pub rpi_camera_exposure : String
  pub rpi_camera_flicker_period : ℕ
  pub rpi_camera_awb : String
  pub rpi_camera_awb_gains : List ℕ
  pub rpi_camera_denoise : String
  pub rpi_camera_shutter : ℕ
  pub rpi_camera_metering : String
  pub rpi_camera_gain : ℕ
  pub rpi_camera_ev : ℕ
  pub rpi_camera_fps : ℕ
  pub rpi_camera_idr_period : ℕ
  pub rpi_camera_bitrate : ℕ
  pub run_on_init : String
  pub run_on_demand : String
  pub run_on_demand_start_timeout : ℕ
  pub run_on_demand_close_after : ℕ
  pub run_on_un_demand : String
  pub others : List String

RecordFormat-discrete : Discrete RecordFormat
RecordFormat-discrete = hlevel

pub PathConf-discrete : Discrete PathConf
PathConf-discrete = hlevel (text_discrete, ℕ_discrete)

-- Equal: reflect.DeepEqual of the two structs.
pub equal : PathConf → PathConf → Bool
equal c d = decide (PathConf-discrete c d)

pub equal_iff : (c d : PathConf) → (equal c d ≡ true) ↔ (c ≡ d)
unfolding equal
equal_iff c d = decide_iff (PathConf-discrete c d)

unfoldable pub has_static_source : PathConf → Bool
has_static_source c = not (c.source ==s "publisher") && not (c.source ==s "redirect")

unfoldable pub has_on_demand_static_source : PathConf → Bool
has_on_demand_static_source c = has_static_source c && c.source_on_demand

unfoldable pub has_on_demand_publisher : PathConf → Bool
has_on_demand_publisher c = not (c.run_on_demand ==s "")

abbrev pub bool_eq : Bool → Bool → Bool
bool_eq true b = b
bool_eq false b = not b

abbrev pub format_eq : RecordFormat → RecordFormat → Bool
format_eq fmp4 fmp4 = true
format_eq mpegts mpegts = true
format_eq _ _ = false
