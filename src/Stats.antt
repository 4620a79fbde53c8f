-- ===== src/Stats.antt =====
-- The statistics of the public interface (src/rle_transmitter.c, src/rle_receiver.c): reading the
-- counters that a transmitter and a receiver keep.
pub mod Transmitters
pub mod Receivers
pub mod Laws
pub mod Counts
