-- ===== src/Tests/Data.antt =====
-- Configurations and requests for the tests.
use plux_mtx.Base.{String, Bool, true, false, Option, some, none, [], ◌≡◌, refl, Ensures}
use plux_mtx.Base.Int.{pos}
use plux_mtx.Conf.PathConf.{PathConf, fmp4}
use plux_mtx.Path.State.{DescribeReq, AddReaderReq, AddPublisherReq}

-- A configuration with this name, source, on-demand flag, command and regular expression.
abbrev pub conf_of : String → String → Bool → String → Option String → PathConf
conf_of name source on_demand command regexp = record {
  regexp = regexp;
  name = name;
  source = source;
  source_on_demand = on_demand;
  source_on_demand_start_timeout = 10;
  source_on_demand_close_after = 10;
  max_readers = pos 2;
  fallback = "";
  ptz = false;
  ptz_source = "";
  records = true;
  record_path = "rec/%path";
  record_format = fmp4;
  record_part_duration = 1;
  record_max_part_size = 50;
  record_segment_duration = 60;
  record_delete_after = 100;
  override_publisher = true;
  srt_publish_passphrase = "";
  source_redirect = "";
  rpi_camera_brightness = 0;
  rpi_camera_contrast = 1;
  rpi_camera_saturation = 1;
  rpi_camera_sharpness = 1;
  rpi_camera_exposure = "normal";
  rpi_camera_flicker_period = 0;
  rpi_camera_awb = "auto";
  rpi_camera_awb_gains = [];
  rpi_camera_denoise = "off";
  rpi_camera_shutter = 0;
  rpi_camera_metering = "centre";
  rpi_camera_gain = 0;
  rpi_camera_ev = 0;
  rpi_camera_fps = 30;
  rpi_camera_idr_period = 60;
  rpi_camera_bitrate = 5000000;
  run_on_init = "";
  run_on_demand = command;
  run_on_demand_start_timeout = 10;
  run_on_demand_close_after = 10;
  run_on_un_demand = "";
  others = [];
}

abbrev pub camera : PathConf
camera = conf_of "cam" "rtsp://cam" true "" none

abbrev pub commanded : PathConf
commanded = conf_of "live" "publisher" false "ffmpeg" none

abbrev pub open_conf : PathConf
open_conf = conf_of "all_others" "publisher" false "" (some "^.*$")

abbrev pub ask : DescribeReq
ask = record { id = 1; query = "" }

abbrev pub join : AddReaderReq
join = record { id = 2; author = 7; query = "" }

-- A publisher, and whether the formats that it announces can be initialized.
abbrev pub publisher_of : Bool → AddPublisherReq
publisher_of initializes = record {
  id = 3;
  author = 8;
  desc = record { id = 1; initializes = initializes };
  generate_rtp_packets = true;
  fill_ntp = true;
  query = "";
  now = 5;
}

abbrev pub result {ℓ} : {A : Type ℓ} → A → Option A → A
result d none = d
result d (some a) = a

pub Ensures-result {ℓ} :
    {A : Type ℓ} (P : A → Type 0) (d : A) (m : Option A) → Ensures P m → P (result d m)
Ensures-result P d none h = elim h [ ]
Ensures-result P d (some a) h = h

pub Ensures-some {ℓ} :
    {A : Type ℓ} (P : A → Type 0) (d : A) (m : Option A) → Ensures P m → m ≡ some (result d m)
Ensures-some P d none h = elim h [ ]
Ensures-some P d (some a) h = refl
