-- ===== src/Storage/Config.antt =====
-- kinugasa-s3/src/lib.rs: `S3Config`. A path is its text, a URL too.
use kinugasa_recording.Shared.{
  Bool, false, Option, none, some, Text, is_empty, is_blank, Result, ok, err, if◌then◌else◌,
}
use kinugasa_recording.Domain.Camera.{Url}

pub record S3Config : Type 0 where
  pub bucket : Text
  pub region : Text
  pub endpoint : Option Url
  pub force_path_style : Bool
  pub recording_root : Text

pub data S3ConfigError : Type 0 where
  empty_bucket empty_region empty_recording_root : S3ConfigError

unfoldable pub new_s3_config : Text → Text → Text → Result S3ConfigError S3Config
new_s3_config bucket region recording_root =
    if is_blank bucket
    then err S3ConfigError.empty_bucket
    else if is_blank region
    then err S3ConfigError.empty_region
    else if is_empty recording_root
    then err S3ConfigError.empty_recording_root
    else ok (record {
      bucket = bucket;
      region = region;
      endpoint = none;
      force_path_style = false;
      recording_root = recording_root;
    })

unfoldable pub with_endpoint : S3Config → Url → S3Config
with_endpoint config endpoint = record config { endpoint = some endpoint }

unfoldable pub with_force_path_style : S3Config → Bool → S3Config
with_force_path_style config force = record config { force_path_style = force }
