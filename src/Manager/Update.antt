-- ===== src/Manager/Update.antt =====
-- internal/core/path_manager.go: pathConfCanBeUpdated. Clone gives an equal configuration.
use plux_mtx.Base.{Bool, true, ◌≡◌, ap}
use plux_mtx.Conf.PathConf.{PathConf, equal, equal_iff}
use plux_mtx.Path.Invariant.Steps.{IsReload}

-- The clone of the old configuration with the fields that can change in a running path.
unfoldable pub updated : PathConf → PathConf → PathConf
updated old new = record old {
  name = new.name;
  regexp = new.regexp;
  records = new.records;
  record_path = new.record_path;
  record_format = new.record_format;
  record_part_duration = new.record_part_duration;
  record_max_part_size = new.record_max_part_size;
  record_segment_duration = new.record_segment_duration;
  record_delete_after = new.record_delete_after;
  rpi_camera_brightness = new.rpi_camera_brightness;
  rpi_camera_contrast = new.rpi_camera_contrast;
  rpi_camera_saturation = new.rpi_camera_saturation;
  rpi_camera_sharpness = new.rpi_camera_sharpness;
  rpi_camera_exposure = new.rpi_camera_exposure;
  rpi_camera_flicker_period = new.rpi_camera_flicker_period;
  rpi_camera_awb = new.rpi_camera_awb;
  rpi_camera_awb_gains = new.rpi_camera_awb_gains;
  rpi_camera_denoise = new.rpi_camera_denoise;
  rpi_camera_shutter = new.rpi_camera_shutter;
  rpi_camera_metering = new.rpi_camera_metering;
  rpi_camera_gain = new.rpi_camera_gain;
  rpi_camera_ev = new.rpi_camera_ev;
  rpi_camera_fps = new.rpi_camera_fps;
  rpi_camera_idr_period = new.rpi_camera_idr_period;
  rpi_camera_bitrate = new.rpi_camera_bitrate;
}

unfoldable pub path_conf_can_be_updated : PathConf → PathConf → Bool
unfolding updated
path_conf_can_be_updated old new = equal new (updated old new)

-- A configuration that the manager reloads into a running path keeps what the path relies on
-- between two rounds of its loop: the source, the on-demand settings and the limit of readers.
pub can_be_updated-IsReload :
    (old new : PathConf) → path_conf_can_be_updated old new ≡ true → IsReload new old
unfolding path_conf_can_be_updated
can_be_updated-IsReload old new h =
    let e = (equal_iff new (updated old new)).0 h in
    record {
      same_source = ap (λ (c : PathConf). c.source) e;
      same_on_demand = ap (λ (c : PathConf). c.source_on_demand) e;
      same_demand = ap (λ (c : PathConf). c.run_on_demand) e;
      same_limit = ap (λ (c : PathConf). c.max_readers) e;
    }
