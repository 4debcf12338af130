-- ===== src/AudioProc/Config.antt =====
-- VoiceProcessorConfig of src/audio_proc/processor.rs.
use rtp_engine.Base.{ℕ, Bool, true, false, ◌||◌, Option, none, some}

pub data NoiseLevel : Type 0 where
  low moderate high very_high : NoiseLevel

pub record VoiceProcessorConfig : Type 0 where
  pub echo_cancellation : Bool
  pub noise_suppression : Bool
  pub noise_level : NoiseLevel
  pub gain_control : Bool
  pub fixed_gain_db : Option ℕ

abbrev pub all_off : VoiceProcessorConfig
all_off = record {
  echo_cancellation = false;
  noise_suppression = false;
  noise_level = moderate;
  gain_control = false;
  fixed_gain_db = none;
}

unfoldable pub desktop_default : VoiceProcessorConfig
desktop_default = record {
  echo_cancellation = true;
  noise_suppression = true;
  noise_level = moderate;
  gain_control = true;
  fixed_gain_db = none;
}

abbrev pub telephony_rate : ℕ
telephony_rate = 16000

unfoldable pub telephony_agent : VoiceProcessorConfig
telephony_agent = record {
  echo_cancellation = true;
  noise_suppression = true;
  noise_level = moderate;
  gain_control = true;
  fixed_gain_db = some 3;
}

unfoldable pub is_any_enabled : VoiceProcessorConfig → Bool
is_any_enabled config =
    config.echo_cancellation || (config.noise_suppression || config.gain_control)
