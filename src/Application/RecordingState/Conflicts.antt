-- ===== src/Application/RecordingState/Conflicts.antt =====
-- kinugasa-core/src/application/recording_state.rs: results of an upload that disagree.
use kinugasa_recording.Shared.{
  ◌≡◌, ◌≢◌, refl, sym, ap, ◌∙◌, true, false, ◌==◌, ◌&&◌, some, ok, arith, Bool-cases, inl, inr,
  >>=-eq-ok, map_err-eq-ok, ok_or, ok_or-eq-ok, ensure, &&-elim, eq_of_==, text_eq, eq_of_text_eq,
}
use kinugasa_recording.Domain.Values.{TakeId, CameraIdentityId}
use kinugasa_recording.Domain.Recording.{StoredObject, UploadResult, stored_eq}
use kinugasa_recording.Domain.Take.{
  FinishedTake, VideoFileState, VideoFile, is_uploading, video_state_eq, new_video_file,
}
use kinugasa_recording.Domain.Intervals.{new_video_file_parts}
use kinugasa_recording.Mysql.Tables.{Db}
use kinugasa_recording.Mysql.Recordings.{
  get_video_file_for_update, get_finalized_recording_for_update,
}
use kinugasa_recording.Application.Errors.{validated}
use kinugasa_recording.Application.RecordingState.{
  get_finished_for_update, settle_file, wanted, persist_upload_result,
}
use kinugasa_recording.Application.RecordingState.Invariant.{finished-snapshot}
use kinugasa_recording.Application.RecordingState.Redelivery.{wanted-settled}
use kinugasa_recording.Application.RecordingState.Written.{written-video}

eq_of_stored_eq : (a b : StoredObject) → stored_eq a b ≡ true → a ≡ b
unfolding stored_eq
eq_of_stored_eq a b h =
    let (key, rest) =
      &&-elim (text_eq a.object_key b.object_key) (text_eq a.hash b.hash && a.size == b.size) h in
    let (hash, size) = &&-elim (text_eq a.hash b.hash) (a.size == b.size) rest in
    λ i. record {
      object_key = eq_of_text_eq a.object_key b.object_key key i;
      hash = eq_of_text_eq a.hash b.hash hash i;
      size = eq_of_== a.size b.size size i;
    }

eq_of_video_state_eq : (s t : VideoFileState) → video_state_eq s t ≡ true → s ≡ t
unfolding video_state_eq
eq_of_video_state_eq VideoFileState.uploading VideoFileState.uploading h = refl
eq_of_video_state_eq VideoFileState.uploading (VideoFileState.completed b) h = cc
eq_of_video_state_eq VideoFileState.uploading (VideoFileState.errored b) h = cc
eq_of_video_state_eq (VideoFileState.completed a) VideoFileState.uploading h = cc
eq_of_video_state_eq (VideoFileState.completed a) (VideoFileState.completed b) h =
    ap VideoFileState.completed (eq_of_stored_eq a b h)
eq_of_video_state_eq (VideoFileState.completed a) (VideoFileState.errored b) h = cc
eq_of_video_state_eq (VideoFileState.errored a) VideoFileState.uploading h = cc
eq_of_video_state_eq (VideoFileState.errored a) (VideoFileState.completed b) h = cc
eq_of_video_state_eq (VideoFileState.errored a) (VideoFileState.errored b) h =
    ap VideoFileState.errored (eq_of_text_eq a b h)

-- A decided file is settled only to the state that it has.
settled-same :
    (video : VideoFile) (take : FinishedTake) (state : VideoFileState) (db : Db) {db' : Db}
    → is_uploading video.state ≡ false
    → settle_file video take state db ≡ ok db'
    → video.state ≡ state
unfolding settle_file
settled-same video take state db {db'} decided h =
    elim (Bool-cases (video_state_eq video.state state)) [
      | inl same ↦ eq_of_video_state_eq video.state state same
      | inr differs ↦ absurd (ground (arith, decided, differs, h))
    ]

-- After a result has been persisted the file has the state that it calls for.
settle_file-state :
    (id : TakeId) (camera_id : CameraIdentityId) (video : VideoFile) (take : FinishedTake)
    (state : VideoFileState) (db : Db) {db' : Db}
    → get_finished_for_update id db ≡ ok take
    → get_video_file_for_update id camera_id db ≡ some video
    → settle_file video take state db ≡ ok db'
    → (after : VideoFile) × (get_video_file_for_update id camera_id db' ≡ some after)
      × (after.state ≡ state)
unfolding settle_file
settle_file-state id camera_id video take state db {db'} got locked h =
    elim (Bool-cases (is_uploading video.state)) [
      | inr decided ↦
          let kept : db' ≡ db = ground (arith, decided) in
          rw kept (video, locked, settled-same video take state db {db' = db'} decided h)
      | inl up ↦
          let (new, built, rest) =
            >>=-eq-ok
              (validated (
                new_video_file video.finished_take_id video.camera_identity_id state
                  video.started_at video.finished_at))
              _ (rw up at h) in
          let (parts, _) = new_video_file_parts _ _ _ _ _ {video = new} (map_err-eq-ok _ _ built) in
          let (after, found, same) =
            written-video id camera_id db take video new (finished-snapshot id db {take = take} got)
              got locked (ap (λ (v : VideoFile). v.finished_take_id) parts)
              (ap (λ (v : VideoFile). v.camera_identity_id) parts) {db' = db'} rest in
          (after, found, same ∙ ap (λ (v : VideoFile). v.state) parts)
    ]

-- The steps of persisting a result.
persisted :
    (result : UploadResult) (db : Db) {db' : Db}
    → persist_upload_result result db ≡ ok db'
    → (take : FinishedTake) × (video : VideoFile) × (get_finished_for_update result.take_id db
        ≡ ok take)
      × (get_video_file_for_update result.take_id result.camera_identity_id db ≡ some video)
      × (settle_file video take (wanted result.outcome) db ≡ ok db')
unfolding persist_upload_result
persisted result db {db'} h =
    let id : TakeId = result.take_id in
    let camera_id : CameraIdentityId = result.camera_identity_id in
    let (take, got, rest) = >>=-eq-ok (get_finished_for_update id db) _ h in
    let (_, _, rest') = >>=-eq-ok (ensure (take.session_id == result.session_id) _) _ rest in
    let (finalized, _, rest'') =
      >>=-eq-ok (ok_or (get_finalized_recording_for_update id camera_id db) _) _ rest' in
    let (_, _, last) = >>=-eq-ok (ensure (finalized.session_id == result.session_id) _) _ rest'' in
    let (video, locked, final) =
      >>=-eq-ok (ok_or (get_video_file_for_update id camera_id db) _) _ last in
    (take, video, got, ok_or-eq-ok _ _ locked, final)

-- Once the result of an upload has been persisted, a result for the same video file that calls for
-- another state is refused.
pub persist_upload_result_conflict :
    (result other : UploadResult) (db db' after : Db)
    → other.take_id ≡ result.take_id
    → other.camera_identity_id ≡ result.camera_identity_id
    → wanted other.outcome ≢ wanted result.outcome
    → persist_upload_result result db ≡ ok db'
    → persist_upload_result other db' ≢ ok after
unfolding is_uploading
persist_upload_result_conflict result other db db' after same_take same_camera differ first second =
    let (take, video, got, locked, settled) = persisted result db {db' = db'} first in
    let (there, found, state) =
      settle_file-state result.take_id result.camera_identity_id video take (wanted result.outcome)
        db {db' = db'} got locked settled in
    let (take', video', _, locked', settled') = persisted other db' {db' = after} second in
    let found' : get_video_file_for_update other.take_id other.camera_identity_id db' ≡ some there =
      rw (same_take, same_camera) found in
    let same : video' ≡ there = cc in
    let now : video'.state ≡ wanted result.outcome = ap (λ (v : VideoFile). v.state) same ∙ state in
    let decided : is_uploading video'.state ≡ false =
      ap is_uploading now ∙ wanted-settled result.outcome in
    differ (
      sym (settled-same video' take' (wanted other.outcome) db' {db' = after} decided settled')
      ∙ now)
