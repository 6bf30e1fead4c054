-- ===== src/Media/Previews.antt =====
-- kinugasa-media/src/moq.rs: `PreviewAuthorizer`. Its map is a function from secrets; the calls of the
-- clock, of the arithmetic on times and of the generator of identifiers are inputs with what they
-- returned.
pub mod Grants
pub mod Requests
pub mod Examples
use kinugasa_recording.Shared.{
  ℕ, Bool, Option, none, some, Text, ◌++◌, ◌&&◌, ◌==◌, ltb, text_eq, is_blank, if◌then◌else◌,
  Result, ok, err, map_err, ok_or, ◌>>=◌,
}
use kinugasa_recording.Domain.Values.{ValidationError, SessionId, Timestamp}
use kinugasa_recording.Media.Registry.{MoqError}

unfoldable pub new_access_token : Text → Result ValidationError Text
unfolding is_blank
new_access_token value =
    if is_blank value
    then err (record { field = "access_token"; reason = "must not be empty" })
    else ok value

pub record PreviewGrant : Type 0 where
  pub session_id : SessionId
  pub expires_at : Timestamp

abbrev pub Grants : Type 0
Grants = Text → Option PreviewGrant

abbrev pub no_grants : Grants
no_grants token = none

abbrev pub keep_live : Timestamp → Option PreviewGrant → Option PreviewGrant
keep_live now none = none
keep_live now (some grant) = if ltb now grant.expires_at then some grant else none

-- `retain`, with the reading of the clock for each entry.
unfoldable pub retain_live : (Text → Timestamp) → Grants → Grants
retain_live now_at grants = λ token. keep_live (now_at token) (grants token)

unfoldable pub insert_grant : Text → PreviewGrant → Grants → Grants
insert_grant secret grant grants =
    λ token. if text_eq token secret then some grant else grants token

-- What the calls of `issue` return: the lifetime is a duration or not, its end a time or not.
pub record IssueCalls : Type 0 where
  pub lifetime : Option ℕ
  pub expires_at : Option Timestamp
  pub first_id : Text
  pub second_id : Text
  pub now_at : Text → Timestamp

-- The part of `issue` before the lock: the token and its expiry.
unfoldable pub new_token : IssueCalls → Result MoqError (Text × Timestamp)
unfolding new_access_token
new_token calls = do
  lifetime ← ok_or calls.lifetime MoqError.other
  expires_at ← ok_or calls.expires_at MoqError.other
  token ← map_err (λ error. MoqError.other) (new_access_token (calls.first_id ++ calls.second_id))
  ok (token, expires_at)

unfoldable pub grant_token :
    SessionId
    → (Text → Timestamp)
    → Result MoqError (Text × Timestamp)
    → Grants
    → Result MoqError (Text × Timestamp) × Grants
unfolding retain_live insert_grant
grant_token session_id now_at (err error) grants = (err error, grants)
grant_token session_id now_at (ok (secret, expires_at)) grants = (
  ok (secret, expires_at),
  insert_grant secret (record { session_id = session_id; expires_at = expires_at })
      (retain_live now_at grants),
)

unfoldable pub issue : SessionId → IssueCalls → Grants → Result MoqError (Text × Timestamp) × Grants
unfolding new_token grant_token
issue session_id calls grants = grant_token session_id calls.now_at (new_token calls) grants

-- `filter` and `map` on the grant that is found.
abbrev pub expiry_for : SessionId → Option PreviewGrant → Option Timestamp
expiry_for session_id none = none
expiry_for session_id (some grant) =
    if grant.session_id == session_id then some grant.expires_at else none

unfoldable pub authorize : SessionId → Text → Timestamp → Grants → Option Timestamp × Grants
unfolding retain_live
authorize session_id token now grants =
    let left = retain_live (λ key. now) grants in (expiry_for session_id (left token), left)
