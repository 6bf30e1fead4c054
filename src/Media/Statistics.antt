-- ===== src/Media/Statistics.antt =====
-- kinugasa-media/src/camera.rs: the counters of a camera's transport, `Statistics`. A clock's reading
-- is passed to the function that takes it; a counter is a 64-bit word.
pub mod Totals
pub mod Examples
use kinugasa_recording.Shared.{ℕ, ◌+◌, ◌%◌, ◌^◌, Bool, Option, none, some, Text, ltb}
use kinugasa_recording.Domain.Values.{Timestamp}

abbrev pub word : ℕ
word = 18446744073709551616

pub record TransportStatistics : Type 0 where
  pub flow_id : ℕ
  pub lost_packets : ℕ
  pub recovered_packets : ℕ

pub record StatisticsInterval : Type 0 where
  pub flow_id : ℕ
  pub interval_start : Timestamp
  pub interval_end : Timestamp
  pub output_packets : ℕ
  pub lost_packets : ℕ
  pub recovered_packets : ℕ

pub record Statistics : Type 0 where
  pub interval_start : Timestamp
  pub latest : Option StatisticsInterval
  pub flow_id : ℕ
  pub output : ℕ
  pub lost : ℕ
  pub recovered : ℕ

unfoldable pub new_statistics : Timestamp → Statistics
new_statistics now = record {
  interval_start = now;
  latest = none;
  flow_id = 0;
  output = 0;
  lost = 0;
  recovered = 0;
}

-- `fetch_add`
abbrev pub fetch_add : ℕ → ℕ → ℕ
fetch_add counter n = (counter + n) % word

-- What `CameraHandle::ingest` does to the counters, whatever becomes of the packet.
unfoldable pub count_packet : ℕ → Statistics → Statistics
count_packet flow_id s = record s { output = fetch_add s.output 1; flow_id = flow_id }

unfoldable pub observe_transport : TransportStatistics → Timestamp → Statistics → Statistics
observe_transport statistics now s =
    let counted : Statistics = record s {
      flow_id = statistics.flow_id;
      recovered = fetch_add s.recovered statistics.recovered_packets;
      lost = fetch_add s.lost statistics.lost_packets;
    } in
    record counted {
      interval_start = now;
      latest = some (record {
        flow_id = statistics.flow_id;
        interval_start = counted.interval_start;
        interval_end = now;
        output_packets = counted.output;
        lost_packets = counted.lost;
        recovered_packets = counted.recovered;
      });
      output = 0;
      lost = 0;
      recovered = 0;
    }

pub record RistStatistics : Type 0 where
  pub session_name : Text
  pub camera_name : Text
  pub gateway_instance : Text
  pub flow_id : ℕ
  pub interval_start : Timestamp
  pub interval_end : Timestamp
  pub output_packets : ℕ
  pub lost_packets : ℕ
  pub recovered_packets : ℕ

pub record RistStatisticsSnapshot : Type 0 where
  pub statistics : RistStatistics
  pub stale : Bool

-- `to_std` refuses an interval that ends after the clock's reading, which is then not stale.
unfoldable pub snapshot_of :
    Text → Text → Text → Timestamp → ℕ → StatisticsInterval → RistStatisticsSnapshot
snapshot_of session_name camera_name gateway now stale_after interval = record {
  statistics = record {
    session_name = session_name;
    camera_name = camera_name;
    gateway_instance = gateway;
    flow_id = interval.flow_id;
    interval_start = interval.interval_start;
    interval_end = interval.interval_end;
    output_packets = interval.output_packets;
    lost_packets = interval.lost_packets;
    recovered_packets = interval.recovered_packets;
  };
  stale = ltb (interval.interval_end + stale_after) now;
}

unfoldable pub latest_snapshot :
    Text → Text → Text → Timestamp → ℕ → Statistics → Option RistStatisticsSnapshot
unfolding snapshot_of
latest_snapshot session_name camera_name gateway now stale_after s = elim s.latest [
  | none ↦ none
  | some interval ↦ some (snapshot_of session_name camera_name gateway now stale_after interval)
]
