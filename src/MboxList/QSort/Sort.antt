-- ===== src/MboxList/QSort/Sort.antt =====
-- The recursion: a partitioned segment of the ring, its two parts sorted in turn.
pub mod Parts
mod Pivot
mod Recursion
pub use Parts.{IsSortedPart}
pub use Recursion.{qsort_helper_part, qsort_helper_all}
