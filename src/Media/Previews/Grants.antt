-- ===== src/Media/Previews/Grants.antt =====
-- kinugasa-media/src/moq.rs: what `PreviewAuthorizer` accepts after any calls.
use kinugasa_recording.Shared.{
  ◌≤◌, ◌≡◌, refl, ap, ◌∙◌, Bool, true, false, Option, none, some, List, [], ◌∷◌, Text, ltb, text_eq,
  ◌==◌, ◌&&◌, if◌then◌else◌, Result, ok, err, arith, Bool-cases, inl, inr,
}
use kinugasa_recording.Domain.Values.{SessionId, Timestamp}
use kinugasa_recording.Media.Registry.{MoqError}
use kinugasa_recording.Media.Previews.{
  PreviewGrant, Grants, no_grants, keep_live, retain_live, insert_grant, IssueCalls, new_token,
  grant_token, issue, expiry_for, authorize,
}

-- A token that has been issued, with its grant.
pub record Issued : Type 0 where
  pub token : Text
  pub grant : PreviewGrant

-- The last grant of a token.
abbrev pub newest : Text → List Issued → Option PreviewGrant
newest token [] = none
newest token (entry ∷ log) =
    if text_eq token entry.token then some entry.grant else newest token log

-- The log after a call of `issue`; the last token issued stands first.
abbrev pub issued_by : SessionId → Result MoqError (Text × Timestamp) → List Issued → List Issued
issued_by session_id (err error) log = log
issued_by session_id (ok (token, expires_at)) log =
    record { token = token; grant = record { session_id = session_id; expires_at = expires_at } }
    ∷ log

abbrev allowed : SessionId → Timestamp → Option PreviewGrant → Option Timestamp
allowed session_id now none = none
allowed session_id now (some grant) =
    if grant.session_id == session_id && ltb now grant.expires_at
    then some grant.expires_at
    else none

-- What a request may expect: the expiry of the last grant of its token, if that is for the session
-- and has not expired.
abbrev pub permitted : SessionId → Text → Timestamp → List Issued → Option Timestamp
permitted session_id token now log = allowed session_id now (newest token log)

expiry_if :
    (session_id : SessionId) (grant : PreviewGrant) (live : Bool)
    → expiry_for session_id (if live then some grant else none)
      ≡ (if grant.session_id == session_id && live then some grant.expires_at else none)
expiry_if session_id grant true = ground arith
expiry_if session_id grant false = ground arith

expiry-allowed :
    (session_id : SessionId) (now : Timestamp) (found : Option PreviewGrant)
    → expiry_for session_id (keep_live now found) ≡ allowed session_id now found
expiry-allowed session_id now none = refl
expiry-allowed session_id now (some grant) = expiry_if session_id grant (ltb now grant.expires_at)

-- The log, a bound on the readings of the clock and the grants after any calls, failures included, in
-- the order in which they take the lock. A call may read the clock before calls that take the lock
-- earlier do.
pub data Served : List Issued → Timestamp → Grants → Type 0 where
  unused : Served [] 0 no_grants
  issued :
      (session_id : SessionId) (calls : IssueCalls) (later : Timestamp) {log : List Issued}
      {latest : Timestamp} {grants : Grants}
      → latest ≤ later
      → ((key : Text) → calls.now_at key ≤ later)
      → Served log latest grants
      → Served
          (issued_by session_id (issue session_id calls grants).0 log)
          later
          (issue session_id calls grants).1
  authorized :
      (session_id : SessionId) (token : Text) (now later : Timestamp) {log : List Issued}
      {latest : Timestamp} {grants : Grants}
      → latest ≤ later
      → now ≤ later
      → Served log latest grants
      → Served log later (authorize session_id token now grants).1

-- Dropping what had expired before does not change what is live.
keep_live-before :
    (before now : Timestamp) (found : Option PreviewGrant)
    → before ≤ now
    → keep_live now (keep_live before found) ≡ keep_live now found
keep_live-before before now none h = refl
keep_live-before before now (some grant) h = ground arith

abbrev IsLogged : List Issued → Timestamp → Grants → Type 0
IsLogged log latest grants =
    (token : Text) (now : Timestamp)
    → latest ≤ now
    → keep_live now (grants token) ≡ keep_live now (newest token log)

grant_token-IsLogged :
    (session_id : SessionId) (now_at : Text → Timestamp) (made : Result MoqError (Text × Timestamp))
    (later : Timestamp) (log : List Issued) (latest : Timestamp) (grants : Grants)
    → latest ≤ later
    → ((key : Text) → now_at key ≤ later)
    → IsLogged log latest grants
    → IsLogged
        (issued_by session_id (grant_token session_id now_at made grants).0 log)
        later
        (grant_token session_id now_at made grants).1
unfolding grant_token insert_grant retain_live
grant_token-IsLogged session_id now_at (err error) later log latest grants h readings i token now
      after =
    i token now (omega arith)
grant_token-IsLogged session_id now_at (ok (secret, expires_at)) later log latest grants h readings
      i token now after =
    elim (Bool-cases (text_eq token secret)) [
      | inl hit ↦ rw hit refl
      | inr miss ↦ rw miss (
          keep_live-before (now_at token) now (grants token) (ground (arith, readings token))
          ∙ i token now (omega arith))
    ]

Served-IsLogged :
    {log : List Issued} {latest : Timestamp} {grants : Grants}
    → Served log latest grants
    → IsLogged log latest grants
unfolding issue authorize retain_live
Served-IsLogged Served.unused token now h = refl
Served-IsLogged (Served.issued session_id calls later {log} {latest} {grants} h readings served)
      token now after =
    grant_token-IsLogged session_id calls.now_at (new_token calls) later log latest grants h
      readings (Served-IsLogged served) token now after
Served-IsLogged (Served.authorized session_id key at later {log} {latest} {grants} h early served)
      token now after =
    keep_live-before at now (grants token) (omega arith)
    ∙ Served-IsLogged served token now (omega arith)

-- After any calls, a request of a session with a token, whose reading of the clock is no earlier than
-- those of the calls before, is authorized, and until which time, exactly as the last grant that was
-- issued with that token says: it is for this session and has not expired.
pub authorize-permitted :
    (session_id : SessionId) (token : Text) (now : Timestamp) {log : List Issued}
    {latest : Timestamp} {grants : Grants}
    → latest ≤ now
    → Served log latest grants
    → (authorize session_id token now grants).0 ≡ permitted session_id token now log
unfolding authorize retain_live
authorize-permitted session_id token now {log} {latest} {grants} h served =
    ap (expiry_for session_id) (Served-IsLogged served token now h)
    ∙ expiry-allowed session_id now (newest token log)
