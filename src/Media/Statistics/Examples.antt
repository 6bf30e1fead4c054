-- ===== src/Media/Statistics/Examples.antt =====
-- Two packets, an observation of the transport, and one more packet.
use kinugasa_recording.Shared.{◌+◌, ◌%◌, ◌≡◌, true, some, List, [], ◌∷◌, arith}
use kinugasa_recording.Media.Statistics.{word, TransportStatistics, StatisticsInterval}
use kinugasa_recording.Media.Statistics.Totals.{
  Count, after, reported, packets, output_total, is_chain, reported-total,
}

abbrev lossy : TransportStatistics
lossy = record { flow_id = 42; lost_packets = 5; recovered_packets = 4 }

abbrev events : List Count
events = Count.packet 42 ∷ Count.transport lossy 20 ∷ Count.packet 42 ∷ Count.packet 42 ∷ []

reported-total_example :
    (output_total (reported 10 events) + (after 10 events).output ≡ packets events)
    × (is_chain 10 (reported 10 events) ≡ true)
    × ((interval : StatisticsInterval) × ((after 10 (Count.transport lossy 30 ∷ events)).latest
          ≡ some interval)
        × (interval.output_packets ≡ (after 10 events).output)
        × (interval.lost_packets ≡ lossy.lost_packets % word)
        × (interval.recovered_packets ≡ lossy.recovered_packets % word))
reported-total_example = reported-total 10 events lossy 30 (omega arith)
