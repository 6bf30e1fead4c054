-- ===== src/Domain/Recording.antt =====
-- kinugasa-core/src/domain/recording.rs: what the recorder hands over and what an upload returns.
use kinugasa_recording.Shared.{
  ℕ, Bool, ◌&&◌, Text, ltb, ◌==◌, if◌then◌else◌, text_eq, Result, ok, err,
}
use kinugasa_recording.Domain.Values.{
  ValidationError, SessionId, CameraIdentityId, TakeId, Timestamp, ErrorReason, ContentHash,
}

pub record FinalizedRecording : Type 0 where
  pub take_id : TakeId
  pub camera_identity_id : CameraIdentityId
  pub session_id : SessionId
  pub started_at : Timestamp
  pub finished_at : Timestamp
  pub relative_path : Text
  pub media_type : Text

-- The check that three constructors share.
unfoldable pub check_interval {ℓ} :
    {A : Type ℓ} → Timestamp → Timestamp → A → Result ValidationError A
check_interval started_at finished_at value =
    if ltb finished_at started_at
    then err (record { field = "finished_at"; reason = "must not precede started_at" })
    else ok value

unfoldable pub new_finalized_recording :
    TakeId
    → CameraIdentityId
    → SessionId
    → Timestamp
    → Timestamp
    → Text
    → Text
    → Result ValidationError FinalizedRecording
unfolding check_interval
new_finalized_recording take_id camera_id session_id started_at finished_at path media_type =
    check_interval started_at finished_at (record {
      take_id = take_id;
      camera_identity_id = camera_id;
      session_id = session_id;
      started_at = started_at;
      finished_at = finished_at;
      relative_path = path;
      media_type = media_type;
    })

pub record StoredObject : Type 0 where
  pub object_key : Text
  pub hash : ContentHash
  pub size : ℕ

unfoldable pub stored_eq : StoredObject → StoredObject → Bool
stored_eq a b = text_eq a.object_key b.object_key && (text_eq a.hash b.hash && a.size == b.size)

pub data UploadOutcome : Type 0 where
  completed : StoredObject → UploadOutcome
  errored : ErrorReason → UploadOutcome

pub record UploadResult : Type 0 where
  pub take_id : TakeId
  pub camera_identity_id : CameraIdentityId
  pub session_id : SessionId
  pub outcome : UploadOutcome
  pub observed_at : Timestamp
