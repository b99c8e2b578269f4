-- ===== src/Apps/Service/Parts.antt =====
-- The router and the phone source of this library, as the service uses them.
use smartmic_windows.Audio.Float.{Float}
use smartmic_windows.Audio.Io.{AudioSource, AudioSink}
use smartmic_windows.Audio.Router.{
  Router, start_ptt_call, stop_ptt_call, set_mode, notify_phone_ready, notify_phone_heartbeat, tick,
}
use smartmic_windows.Media.JitterBuffer.{Estimator, Decoder}
use smartmic_windows.Media.PhoneSource.{PhoneMediaSource, on_media_payload, is_ready}
use smartmic_windows.Apps.Service.{RouterControl, SourceControl}

-- `AudioRouter`
abbrev pub router_control :
    {f : Float} → AudioSource f → AudioSource f → AudioSink f → RouterControl
router_control local_source phone_source output = record {
  R = Router local_source phone_source output;
  start_ptt = λ r. start_ptt_call local_source phone_source output r;
  stop_ptt = λ r. stop_ptt_call local_source phone_source output r;
  set_mode = λ m r. set_mode local_source phone_source output m r;
  notify_phone_ready = λ r. notify_phone_ready local_source phone_source output r;
  notify_phone_heartbeat = λ r. notify_phone_heartbeat local_source phone_source output r;
  tick = λ r. (tick local_source phone_source output r).1;
  state = λ r. r.sm.state;
  mode = λ r. r.sm.mode;
}

-- `PhoneMediaSource`
abbrev pub source_control : (est : Estimator) → Decoder → SourceControl
source_control est dec = record {
  P = PhoneMediaSource est dec;
  on_media_payload = λ bytes now s. (on_media_payload est dec bytes now s).1;
  ready = λ s. is_ready est dec s;
}
