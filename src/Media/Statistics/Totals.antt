-- ===== src/Media/Statistics/Totals.antt =====
-- kinugasa-media/src/camera.rs: the intervals that `Statistics` reports, together.
use kinugasa_recording.Shared.{
  ℕ, suc, ◌+◌, ◌%◌, ◌<◌, ◌≡◌, refl, Bool, true, ◌&&◌, Option, none, some, List, [], ◌∷◌, arith,
  ◌==◌,
}
use kinugasa_recording.Domain.Values.{Timestamp}
use kinugasa_recording.Media.Statistics.{
  word, TransportStatistics, StatisticsInterval, Statistics, new_statistics, count_packet,
  observe_transport,
}

-- What happens to the counters: a packet of a flow, or the transport's own statistics at a time.
pub data Count : Type 0 where
  packet : ℕ → Count
  transport : TransportStatistics → Timestamp → Count

unfoldable pub count : Count → Statistics → Statistics
unfolding count_packet observe_transport
count (Count.packet flow_id) s = count_packet flow_id s
count (Count.transport statistics now) s = observe_transport statistics now s

-- The counters after some events, the last of which stands first, and the intervals that were the
-- latest after each observation of the transport, the last first.
unfoldable pub after : Timestamp → List Count → Statistics
unfolding count new_statistics
after start [] = new_statistics start
after start (event ∷ earlier) = count event (after start earlier)

abbrev pub with_latest {ℓ} : {A : Type ℓ} → Option A → List A → List A
with_latest none rest = rest
with_latest (some x) rest = x ∷ rest

unfoldable pub reported : Timestamp → List Count → List StatisticsInterval
reported start [] = []
reported start (Count.packet flow_id ∷ earlier) = reported start earlier
reported start (Count.transport statistics now ∷ earlier) =
    with_latest (after start (Count.transport statistics now ∷ earlier)).latest
      (reported start earlier)

abbrev pub packets : List Count → ℕ
packets [] = 0
packets (Count.packet flow_id ∷ earlier) = suc (packets earlier)
packets (Count.transport statistics now ∷ earlier) = packets earlier

abbrev pub output_total : List StatisticsInterval → ℕ
output_total [] = 0
output_total (interval ∷ rest) = interval.output_packets + output_total rest

-- Every interval starts where the one before it ended, and the first at the start.
abbrev pub end_of : Timestamp → List StatisticsInterval → Timestamp
end_of start [] = start
end_of start (interval ∷ rest) = interval.interval_end

abbrev pub is_chain : Timestamp → List StatisticsInterval → Bool
is_chain start [] = true
is_chain start (interval ∷ rest) =
    (interval.interval_start == end_of start rest) && is_chain start rest

counted :
    (start : Timestamp) (events : List Count)
    → packets events < word
    → (output_total (reported start events) + (after start events).output ≡ packets events)
      × ((after start events).lost ≡ 0)
      × ((after start events).recovered ≡ 0)
      × ((after start events).interval_start ≡ end_of start (reported start events))
      × (is_chain start (reported start events) ≡ true)
unfolding after reported count count_packet observe_transport new_statistics
counted start [] h = ground arith
counted start (Count.packet flow_id ∷ earlier) h = ground (arith, counted start earlier)
counted start (Count.transport statistics now ∷ earlier) h = ground (arith, counted start earlier)

-- While fewer than 2^64 packets have come in, no packet is counted twice or lost: the packets of all
-- intervals that were reported and those not reported yet are the packets that came in. The intervals
-- follow one another without a gap from the start on; and the next one will have the packets not
-- reported yet, and the losses that the transport gives with it, as 64-bit words.
pub reported-total :
    (start : Timestamp) (events : List Count) (statistics : TransportStatistics) (now : Timestamp)
    → packets events < word
    → (output_total (reported start events) + (after start events).output ≡ packets events)
      × (is_chain start (reported start events) ≡ true)
      × ((interval : StatisticsInterval) × ((after start
              (Count.transport statistics now ∷ events)).latest
            ≡ some interval)
          × (interval.output_packets ≡ (after start events).output)
          × (interval.lost_packets ≡ statistics.lost_packets % word)
          × (interval.recovered_packets ≡ statistics.recovered_packets % word))
unfolding after count observe_transport
reported-total start events statistics now h =
    let (total, lost, recovered, at, chain) = counted start events h in
    (total, chain, (_, refl, refl, rw lost (omega arith), rw recovered (omega arith)))
