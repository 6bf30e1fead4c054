-- ===== src/Media/Previews/Requests.antt =====
-- kinugasa-media/src: who may watch a preview, `serve_request` of moq.rs and `subscribe_preview` of
-- service.rs. The parser of identifiers is a parameter; a request carries what its library reads from
-- it.
use kinugasa_recording.Shared.{
  ◌≤◌, ◌≡◌, refl, ◌∙◌, sym, ap, Bool, false, Option, none, some, List, [], ◌∷◌, Text, ◌==◌,
  if◌then◌else◌, Result, ok, err, arith, Bool-cases, inl, inr,
}
use kinugasa_recording.Domain.Values.{SessionId, CameraIdentityId, Timestamp}
use kinugasa_recording.Domain.Paths.{contains}
use kinugasa_recording.Application.Errors.{MediaError}
use kinugasa_recording.Media.Registry.{CameraMetadata, CameraRegistry}
use kinugasa_recording.Media.Previews.{Grants, authorize}
use kinugasa_recording.Media.Previews.Grants.{Issued, Served, permitted, authorize-permitted}

-- `str::strip_prefix`
unfoldable pub strip_prefix : Text → Text → Option Text
strip_prefix [] text = some text
strip_prefix (c ∷ prefix) [] = none
strip_prefix (c ∷ prefix) (d ∷ text) = if c == d then strip_prefix prefix text else none

module _ (parse_session_id : Text → Option SessionId) where
  abbrev parse_suffix : Option Text → Option SessionId
  parse_suffix none = none
  parse_suffix (some suffix) = if contains b'/' suffix then none else parse_session_id suffix

  abbrev strip_slash : Option Text → Option Text
  strip_slash none = none
  strip_slash (some text) = strip_prefix (b'/' ∷ []) text

  unfoldable pub parse_session_path : Text → Text → Option SessionId
  unfolding strip_prefix contains
  parse_session_path path prefix = parse_suffix (strip_slash (strip_prefix prefix path))

pub record Request : Type 0 where
  pub is_publisher : Bool
  pub path : Text
  pub token : Option Text

-- A subscriber is served the broadcasts of a session until its grant expires.
pub data Answer : Type 0 where
  forbidden unauthorized : Answer
  served : SessionId → Timestamp → Answer

-- From the check of the token on.
abbrev pub serve_expiry :
    SessionId → (SessionId → Bool) → Option Timestamp × Grants → Answer × Grants
serve_expiry session_id has_origin (none, left) = (Answer.unauthorized, left)
serve_expiry session_id has_origin (some expires_at, left) =
    (if has_origin session_id then Answer.served session_id expires_at else Answer.forbidden, left)

unfoldable pub serve_session :
    Option SessionId → Option Text → Timestamp → (SessionId → Bool) → Grants → Answer × Grants
unfolding authorize
serve_session none token now has_origin grants = (Answer.forbidden, grants)
serve_session (some session_id) none now has_origin grants = (Answer.unauthorized, grants)
serve_session (some session_id) (some token) now has_origin grants =
    serve_expiry session_id has_origin (authorize session_id token now grants)

unfoldable pub serve_request :
    (Text → Option SessionId)
    → Text
    → Request
    → Timestamp
    → (SessionId → Bool)
    → Grants
    → Answer × Grants
unfolding parse_session_path serve_session
serve_request parse_session_id endpoint_path request now has_origin grants =
    if request.is_publisher
    then (Answer.forbidden, grants)
    else serve_session (parse_session_path parse_session_id request.path endpoint_path)
        request.token now has_origin grants

abbrev pub subscribe_expiry :
    CameraMetadata → Option Timestamp × Grants → Result MediaError CameraMetadata × Grants
subscribe_expiry camera (none, left) = (err MediaError.not_found, left)
subscribe_expiry camera (some expires_at, left) = (ok camera, left)

abbrev pub subscribe_camera :
    Option CameraMetadata → Text → Timestamp → Grants → Result MediaError CameraMetadata × Grants
subscribe_camera none token now grants = (err MediaError.not_found, grants)
subscribe_camera (some camera) token now grants =
    subscribe_expiry camera (authorize camera.session_id token now grants)

-- The camera to which the subscriber is connected.
unfoldable pub subscribe_preview :
    Text
    → CameraIdentityId
    → Timestamp
    → CameraRegistry
    → Grants
    → Result MediaError CameraMetadata × Grants
unfolding authorize
subscribe_preview token camera_id now registry grants =
    subscribe_camera (registry.by_id camera_id) token now grants

expiry-served :
    (wanted session_id : SessionId) (has_origin : SessionId → Bool)
    (found : Option Timestamp × Grants) {until : Timestamp}
    → (serve_expiry wanted has_origin found).0 ≡ Answer.served session_id until
    → (wanted ≡ session_id) × (found.0 ≡ some until)
expiry-served wanted session_id has_origin (none, left) e = cc
expiry-served wanted session_id has_origin (some expires_at, left) {until} e = ground arith

session-served :
    (parsed : Option SessionId) (sent : Option Text) (now : Timestamp)
    (has_origin : SessionId → Bool) (grants : Grants) {session_id : SessionId} {until : Timestamp}
    → (serve_session parsed sent now has_origin grants).0 ≡ Answer.served session_id until
    → (token : Text) × (parsed ≡ some session_id)
      × (sent ≡ some token)
      × ((authorize session_id token now grants).0 ≡ some until)
unfolding serve_session
session-served none sent now has_origin grants e = cc
session-served (some parsed) none now has_origin grants e = cc
session-served (some parsed) (some token) now has_origin grants {session_id} {until} e =
    let (same, found) =
      expiry-served parsed session_id has_origin (authorize parsed token now grants) {until = until}
        e in
    (
      token,
      ap some same,
      refl,
      sym (ap (λ (id : SessionId). (authorize id token now grants).0) same) ∙ found,
    )

-- After any calls, while the clock does not run backwards, a request is served the broadcasts of a
-- session only when it does not publish, its path names that session below the endpoint's, and its
-- token was last granted for the session; the grant has not expired, and it is served until it does.
pub serve_request-served :
    (parse_session_id : Text → Option SessionId) (endpoint_path : Text) (request : Request)
    (now : Timestamp) (has_origin : SessionId → Bool) {log : List Issued} {latest : Timestamp}
    {grants : Grants} {session_id : SessionId} {until : Timestamp}
    → latest ≤ now
    → Served log latest grants
    → (serve_request parse_session_id endpoint_path request now has_origin grants).0
      ≡ Answer.served session_id until
    → (request.is_publisher ≡ false)
      × (parse_session_path parse_session_id request.path endpoint_path ≡ some session_id)
      × (token : Text) × (request.token ≡ some token)
      × (permitted session_id token now log ≡ some until)
unfolding serve_request
serve_request-served parse_session_id endpoint_path request now has_origin {log} {latest} {grants}
      {session_id} {until} h history e =
    elim (Bool-cases (request.is_publisher)) [
      | inl publishes ↦ absurd (ground (arith, publishes, e))
      | inr subscribes ↦
          let (token, named, sent, accepted) =
            session-served (parse_session_path parse_session_id request.path endpoint_path)
              request.token now has_origin grants {session_id = session_id} {until = until}
              (ground (arith, subscribes, e)) in
          (
            subscribes,
            named,
            token,
            sent,
            sym (
                  authorize-permitted session_id token now {log = log} {latest = latest}
                    {grants = grants} h history)
                ∙ accepted,
          )
    ]
