-- ===== src/Trip.antt =====
-- Messages that pb_encode writes and pb_decode reads (Pods/nanopb/pb_encode.c, pb_decode.c).
pub mod Seen
pub mod Cells
pub mod Signed
pub mod Values
pub mod Runs
pub mod Shape
pub mod Places
pub mod Kept
pub mod Implicit
pub mod Crossing
pub mod Arrays
pub mod Items
pub mod Packed
pub mod Written
pub mod Received
pub mod Visited
pub mod OneField
pub mod Rounds
pub mod Reading
pub mod Messages
pub mod Nested
pub mod Blank
pub mod Whole
pub mod Delimited
