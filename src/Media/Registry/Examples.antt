-- ===== src/Media/Registry/Examples.antt =====
-- Two cameras of one session, of which one is revoked.
use kinugasa_recording.Shared.{ℕ, ◌≡◌, ◌≢◌, ◌↔◌, refl, some, [], ◌∷◌, codes, ok, text_eq}
use kinugasa_recording.Media.Registry.{
  CameraMetadata, CameraRegistry, default_registry, ProvisionCameraRequest, Transports,
  provision_camera, Outcome, revoke_camera, camera_for_session_route,
}
use kinugasa_recording.Media.Registry.Consistency.{IsConsistent}
use kinugasa_recording.Media.Registry.Histories.{
  Registered, Registered-IsConsistent, revoke_camera-returns, camera_for_session_route-camera,
  revoke_camera-camera_for_session_route,
}

abbrev request_of : ℕ → ℕ → ProvisionCameraRequest
request_of id port = record {
  session_id = 1;
  session_name = codes "live";
  camera_identity_id = id;
  camera_name = codes "front";
  virtual_port = some port;
}

abbrev working : Transports
working = record { rist = ok (λ port. port ∷ []); moq = ok tt }

abbrev first_registry : CameraRegistry
first_registry = (provision_camera (request_of 7 1024) working default_registry).1

abbrev both : CameraRegistry
both = (provision_camera (request_of 8 1025) working first_registry).1

both-Registered : Registered both
both-Registered =
    Registered.provisioned (request_of 8 1025) working
      (Registered.provisioned (request_of 7 1024) working Registered.empty)

abbrev second_camera : CameraMetadata
second_camera = record {
  session_id = 1;
  session_name = codes "live";
  camera_id = 8;
  camera_name = codes "front";
  virtual_port = 1025;
  publish_endpoint = 1025 ∷ [];
}

revoked_first : (revoke_camera 7 (ok tt) both).0 ≡ Outcome.returned (ok tt)
unfolding revoke_camera provision_camera text_eq
revoked_first = refl

found_second : camera_for_session_route 1 1025 (revoke_camera 7 (ok tt) both).1 ≡ ok second_camera
unfolding camera_for_session_route revoke_camera provision_camera text_eq
found_second = refl

Registered-IsConsistent_example : IsConsistent both
Registered-IsConsistent_example = Registered-IsConsistent both both-Registered

camera_for_session_route-camera_example :
    (camera_for_session_route 1 1025 both ≡ ok second_camera) ↔ (
      (both.by_id second_camera.camera_id ≡ some second_camera)
      × (second_camera.session_id ≡ 1)
      × (second_camera.virtual_port ≡ 1025))
camera_for_session_route-camera_example =
    camera_for_session_route-camera both 1 1025 second_camera both-Registered

revoke_camera-returns_example : (revoke_camera 7 (ok tt) both).0 ≢ Outcome.panicked
revoke_camera-returns_example = revoke_camera-returns both 7 (ok tt) both-Registered

revoke_camera-camera_for_session_route_example : second_camera.camera_id ≢ 7
revoke_camera-camera_for_session_route_example =
    revoke_camera-camera_for_session_route both 7 (ok tt) 1 1025 second_camera both-Registered
      revoked_first found_second
