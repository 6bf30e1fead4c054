-- ===== src/Media/PortPool/Examples.antt =====
-- A pool of two ports, with one camera and another that is being closed.
use kinugasa_recording.Shared.{◌≡◌, refl, true, some, [], ◌∷◌, codes, ok}
use kinugasa_recording.Media.PortPool.{
  RistConfig, RistState, CameraReceiver, fresh_state, collect, set_insert, insert_port, set_remove,
  provision_port, get_camera, withdraw,
}
use kinugasa_recording.Media.PortPool.Partition.{Serving, IsPartition, Serving-IsPartition}

abbrev config : RistConfig
config = record {
  public_endpoint = record { scheme = codes "rist"; has_host = true; query_keys = [] };
  available_ports = 9001 ∷ 9000 ∷ [];
  encryption_pepper = [];
  recovery_buffer = 5;
  reorder_buffer = 1;
  statistics_interval = 5;
}

abbrev first_state : RistState
first_state = (provision_port 1 7 (λ port. ok (port ∷ [])) (ok tt) (fresh_state config)).1

abbrev second_state : RistState
second_state = (provision_port 1 8 (λ port. ok (port ∷ [])) (ok tt) first_state).1

abbrev first_camera : CameraReceiver
first_camera = record { session_id = 1; port = 9000; endpoint = 9000 ∷ [] }

withdrawn_first : (withdraw 7 second_state).0 ≡ some first_camera
unfolding withdraw get_camera provision_port fresh_state collect set_insert insert_port set_remove
withdrawn_first = refl

Serving-IsPartition_example :
    IsPartition config.available_ports (9000 ∷ []) (withdraw 7 second_state).1
Serving-IsPartition_example = Serving-IsPartition config (
    Serving.withdrawn 7 first_camera withdrawn_first (
      Serving.provisioned 1 8 (λ port. ok (port ∷ [])) (ok tt)
        (Serving.provisioned 1 7 (λ port. ok (port ∷ [])) (ok tt) Serving.started)))
