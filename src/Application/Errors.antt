-- ===== src/Application/Errors.antt =====
-- kinugasa-core/src/application/error.rs and the error types of the ports that it wraps. A boxed
-- source of an error is left out: no use case looks at it.
use kinugasa_recording.Shared.{Result, map_err}
use kinugasa_recording.Domain.Values.{ValidationError}
use kinugasa_recording.Mysql.Tables.{RepositoryError}

pub data MediaError : Type 0 where
  conflict not_found timeout unavailable unexpected : MediaError

pub data ObjectStorageError : Type 0 where
  conflict unavailable unexpected : ObjectStorageError

pub data UseCaseError : Type 0 where
  invalid_argument : ValidationError → UseCaseError
  repository : RepositoryError → UseCaseError
  media : MediaError → UseCaseError
  object_storage : ObjectStorageError → UseCaseError
  task : UseCaseError

-- `UseCaseError::conflict()`
abbrev pub use_case_conflict : UseCaseError
use_case_conflict = repository RepositoryError.conflict

-- The conversions that `?` applies.
abbrev pub in_repository {ℓ} : {A : Type ℓ} → Result RepositoryError A → Result UseCaseError A
in_repository r = map_err repository r

abbrev pub validated {ℓ} : {A : Type ℓ} → Result ValidationError A → Result UseCaseError A
validated r = map_err invalid_argument r
