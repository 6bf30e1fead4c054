-- ===== src/Application/RecordingState/Final.antt =====
-- kinugasa-core/src/application/recording_state.rs: decided video files along sequences of units of
-- work.
use kinugasa_recording.Shared.{
  ◌≡◌, refl, ap, false, some, List, [], ◌∷◌, ◌++◌, ok, arith, find-append, >>=-eq-ok, map_err-eq-ok,
}
use kinugasa_recording.Domain.Values.{TakeId, SessionId, CameraIdentityId, Timestamp}
use kinugasa_recording.Domain.Take.{
  FinishedTake, VideoFile, is_uploading, OngoingTake, new_finished_take,
}
use kinugasa_recording.Mysql.Tables.{VideoFileRow, Db, is_file, naive}
use kinugasa_recording.Mysql.Takes.{
  insert_video_file, insert_video_files, finish_row, replace_ongoing_with_finished,
  delete_recording_cameras,
}
use kinugasa_recording.Mysql.Recordings.{get_video_file_for_update, save_recording_camera}
use kinugasa_recording.Application.Errors.{validated, in_repository}
use kinugasa_recording.Application.RecordingState.{
  persist_recording_started, finish_ongoing_take, finished_files, initial_state,
}
use kinugasa_recording.Application.RecordingState.Terminal.{
  IsKept, IsKept-same, persist_recording_failure-IsKept, fail_upload-IsKept,
  stage_finalized_recording-IsKept, persist_upload_result-IsKept,
}
use kinugasa_recording.Application.RecordingState.Invariant.{video-row}
use kinugasa_recording.Application.RecordingState.Traces.{Step, Reach, insert_ongoing_take_parts}

module _ (id : TakeId) (camera_id : CameraIdentityId) where
  insert_video_file-IsKept :
      (session_id : SessionId) (new : VideoFile) (db : Db) {db' : Db}
      → insert_video_file session_id new db ≡ ok db'
      → IsKept id camera_id db db'
  unfolding insert_video_file get_video_file_for_update
  insert_video_file-IsKept session_id new db {db'} h video e settled =
      let (row, found, same, _, _) = video-row id camera_id db {video = video} e in
      let inserted : VideoFileRow = record {
        session_id = session_id;
        file = record new {
          started_at = naive new.started_at;
          finished_at = naive new.finished_at;
        };
      } in
      let files : db'.video_files ≡ db.video_files ++ inserted ∷ [] = ground arith in
      rw (files, find-append (is_file id camera_id) db.video_files (inserted ∷ []) {a = row} found)
        (ap some same)

  insert_video_files-IsKept :
      (session_id : SessionId) (videos : List VideoFile) (db : Db) {db' : Db}
      → insert_video_files session_id videos db ≡ ok db'
      → IsKept id camera_id db db'
  unfolding insert_video_files
  insert_video_files-IsKept session_id [] db {db'} h video e settled =
      let kept : db' ≡ db = ground arith in
      IsKept-same id camera_id db db' (ap (λ d. d.video_files) kept) video e settled
  insert_video_files-IsKept session_id (new ∷ videos) db {db'} h video e settled =
      let (mid, first, rest) = >>=-eq-ok (insert_video_file session_id new db) _ h in
      insert_video_files-IsKept session_id videos mid {db' = db'} rest video
        (insert_video_file-IsKept session_id new db {db' = mid} first video e settled) settled

  replaced-IsKept :
      (take : FinishedTake) (videos : List VideoFile) (db : Db) {db' : Db}
      → replace_ongoing_with_finished take videos db ≡ ok db'
      → IsKept id camera_id db db'
  unfolding replace_ongoing_with_finished finish_row
  replaced-IsKept take videos db {db'} h video e settled =
      insert_video_files-IsKept take.session_id videos (finish_row take db) {db' = db'} h video
        (IsKept-same id camera_id db (finish_row take db) refl video e settled) settled

  finish_ongoing_take-IsKept :
      (ongoing : OngoingTake) (at : Timestamp) (db : Db) {take : FinishedTake} {db' : Db}
      → finish_ongoing_take ongoing at db ≡ ok (take, db')
      → IsKept id camera_id db db'
  unfolding finish_ongoing_take delete_recording_cameras
  finish_ongoing_take-IsKept ongoing at db {take} {db'} h video e settled =
      let (videos, made, rest) = >>=-eq-ok (finished_files ongoing.id at ongoing.cameras) _ h in
      let (state, initial, rest1) = >>=-eq-ok (initial_state ongoing.cameras) _ rest in
      let (finished, built, rest2) =
        >>=-eq-ok (validated (new_finished_take _ _ _ _ _ _)) _ rest1 in
      let (mid, replaced, rest3) =
        >>=-eq-ok (in_repository (replace_ongoing_with_finished finished videos db)) _ rest2 in
      let files : db'.video_files ≡ mid.video_files = ground (arith, rest3) in
      IsKept-same id camera_id mid db' files video
        (replaced-IsKept finished videos db {db' = mid} (map_err-eq-ok _ _ replaced) video e
          settled)
        settled

  persist_recording_started-IsKept :
      (k : TakeId) (c : CameraIdentityId) (at : Timestamp) (db : Db) {db' : Db}
      → persist_recording_started k c at db ≡ ok db'
      → IsKept id camera_id db db'
  unfolding persist_recording_started save_recording_camera
  persist_recording_started-IsKept k c at db {db'} h =
      let files : db'.video_files ≡ db.video_files = ground arith in
      IsKept-same id camera_id db db' files

  Step-IsKept : {db db' : Db} → Step db db' → IsKept id camera_id db db'
  Step-IsKept {db} {db'} (Step.started_take take fresh h) =
      let (_, _, files) = insert_ongoing_take_parts take db {db' = db'} h in
      IsKept-same id camera_id db db' files
  Step-IsKept {db} {db'} (Step.recording_started k c at h) =
      persist_recording_started-IsKept k c at db {db' = db'} h
  Step-IsKept {db} {db'} (Step.recording_failed k c reason h) =
      persist_recording_failure-IsKept id camera_id k c reason db {db' = db'} h
  Step-IsKept {db} {db'} (Step.finished_take row ongoing at {take = take} found running loaded h) =
      finish_ongoing_take-IsKept ongoing at db {take = take} {db' = db'} h
  Step-IsKept {db} {db'} (Step.staged recording h) =
      stage_finalized_recording-IsKept id camera_id recording db {db' = db'} h
  Step-IsKept {db} {db'} (Step.uploaded result h) =
      persist_upload_result-IsKept id camera_id result db {db' = db'} h
  Step-IsKept {db} {db'} (Step.upload_failed k c reason h) =
      fail_upload-IsKept id camera_id k c reason db {db' = db'} h

-- Once a video file is completed or errored, no sequence of units of work on takes and recordings
-- changes it: it is found unchanged in every database reached from there.
pub Reach-IsKept :
    {db db' : Db} (id : TakeId) (camera_id : CameraIdentityId) (video : VideoFile)
    → Reach db db'
    → get_video_file_for_update id camera_id db ≡ some video
    → is_uploading video.state ≡ false
    → get_video_file_for_update id camera_id db' ≡ some video
Reach-IsKept id camera_id video Reach.here e settled = e
Reach-IsKept id camera_id video (Reach.next before step) e settled =
    Step-IsKept id camera_id step video (Reach-IsKept id camera_id video before e settled) settled
