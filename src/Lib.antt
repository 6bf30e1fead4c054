-- ===== src/Lib.antt =====
-- Verification of kinugasa-recording, a server that records the cameras of a session in takes and
-- uploads the recordings. A camera sends its picture over RIST to the media server
-- (crates/kinugasa-media); use cases (crates/kinugasa-core/src/application) start and finish takes and
-- follow the uploads, each step in a unit of work on a MySQL database (crates/kinugasa-mysql), on the
-- entities of crates/kinugasa-core/src/domain.
--
-- Files:
-- - Shared, with child modules: Boolean tests, lists selected by Boolean tests, texts, results.
-- - Domain/Values, Paths, Camera, Recording, Take: the types of domain/ with their checking
--   constructors, as functions into a result with the source's `ValidationError`; Paths has also
--   `RecordingLayout` of application/config.rs. Domain/Intervals says what the constructors build.
-- - Mysql/Tables: the tables as lists of rows in insertion order. Mysql/Takes, Recordings, Cameras: a
--   function for statements of crates/kinugasa-mysql/src, take.rs, recording.rs and camera.rs, with the source's names:
--   `WHERE` is `select` or `find`, `UPDATE` is `update`, `ORDER BY` is `order_by`.
--   Mysql/Order and Mysql/ActiveRecordings have lemmas on these. Mysql/Columns: how
--   states are kept in columns, with the round trips in Mysql/Columns/RoundTrips.
-- - Application/RecordingState: all functions of application/recording_state.rs. Its child modules
--   define the settled databases (Settled) and the sequences of steps (Traces); the others hold the
--   lemmas on converging a take (Converge), on the transitions (Invariant, Uploads, Finish), on video
--   files that are decided (Terminal, Final), on results of uploads (Written, Progress,
--   Redelivery, Conflicts), on requests that come again (Staging, Aborting) and on recordings that
--   end (Ended).
-- - Application/Cameras: `delete_camera` of application/camera.rs. Application/MediaCoordinator:
--   `recover_after_restart`, up to its commit, and `process_next_event` of
--   application/media_coordinator.rs, with its child modules on a recovery that fails (Recovery), on
--   one that succeeds (Completion) and on events (Interruption). Application/Settling has the lemmas
--   on deleting a camera.
-- - Application/Takes: `start_take` and `finish_take` of application/take.rs, with the lemmas on
--   their tasks (Tasks), on starting and on finishing a take (Starting, Finishing), and the
--   sequences of use cases in Application/Takes/Histories. Application/UploadCoordinator: `reconcile` of
--   application/upload_coordinator.rs, on Mysql/Pending, the pending uploads.
--   Application/Tasks: `collect_tasks` of application/task.rs.
-- - Ports/Repository: `PageRequest`, `NamedFinishedTakeDetail` and `PendingUpload` of
--   crates/kinugasa-core/src/ports/repository.rs, with Ports/Pages and Ports/Names. Ports/Hex and
--   Ports/Certificates: the hexadecimal texts of ports/media.rs.
-- - Media/Recorder: `RecordingFile` of crates/kinugasa-media/src/recording.rs. Media/Worker: the loop
--   `run_camera` of camera.rs, one function for each arm, `step` for a round and `run` for the loop,
--   with Media/Worker/Events on what it tells the backend and Media/Worker/Contents on what a
--   recording holds. Media/Statistics: the counters of camera.rs.
-- - Media/Registry: `CameraRegistry` of service.rs with `provision_camera`, `revoke_camera` and the
--   lookups. Its child modules hold the lemmas on one session (Sessions), on adding a camera
--   (Consistency, Revocation) and on taking one out (Closing); Histories defines the sequences of
--   calls. Media/Ports: `allocate_virtual_port` of service.rs.
-- - Media/PortPool: `RistConfig::validate` and the pool of UDP ports of rist.rs; `provision_port` and
--   `revoke_port` are `RistServer::provision_camera` and `revoke_camera`. Media/Routes: `FlowRoutes` of
--   rist.rs. Media/Sets: sets and maps with numbers as keys.
-- - Media/Previews: `PreviewAuthorizer` of crates/kinugasa-media/src/moq.rs, with the sequences of its
--   calls in Media/Previews/Grants; Media/Previews/Requests: `serve_request` of moq.rs up to the answer,
--   and `subscribe_preview` of service.rs.
-- - Storage: crates/kinugasa-s3/src/lib.rs. Storage/Keys names an object, Storage/Hashing reads the
--   file, Storage/Client classifies the answers of the service, Storage/Upload is `upload`, and
--   Storage/Stored relates what it returns to the bucket. Storage/Config: `S3Config`.
-- - Modules named Examples, FinishExample, ProgressExample or RedeliveryExample: runs on concrete inputs.
--
-- The model. A unit of work is a function from the tables to a result with the new tables: an error
-- leaves the tables as they were, as the rollback of a transaction that is dropped does, and the row
-- locks of `FOR UPDATE` make units of work that touch the same take follow one another. A row holds
-- what its columns decode to. Identifiers are numbers, texts are lists of code points, timestamps are
-- nanoseconds, of which a DATETIME(6) column keeps whole microseconds (`naive`). Breaking a unique
-- index or a foreign key is a conflict, as `classify_sqlx` says. Loops are recursive on the lists that
-- they run over; that of `allocate_virtual_port` makes a fixed number of rounds, one for each port.
-- `Url::parse` is a parameter, assumed to give back the endpoints that are stored.
--
-- The concurrent tasks of a use case commit one after another, in an order that is an input, as are
-- the answers that they get. In the media server and the object storage a call of a library (the file
-- system, a channel, librist, the SDK) is an input that carries what the call returned, so the
-- theorems range over all its results. The task of a camera handles its inputs in any order; a packet
-- that a full queue refuses is an input too. A lock that is held over a whole call makes the call one
-- step; `RistServer::revoke_camera` takes its lock twice and is two steps. Maps with numbers as keys
-- are functions or lists of entries.
-- The service behind the object storage is a state with two requests, assumed to store an object when
-- it says so and to tell of an object that is there; SHA-256 is a parameter.
--
-- Not modelled: failures of connections, the CHECK constraints (they repeat what the constructors
-- check), statements that only list, but for the pending uploads, the last read of
-- `finish_take`, the use cases of sessions, previews and statistics, the start and stop of the
-- servers, the publications of the preview server, the HTTP API and the start-up code.
pub mod Shared
pub mod Domain
pub mod Ports
pub mod Mysql
pub mod Application
pub mod Media
pub mod Storage
