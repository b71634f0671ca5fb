-- ===== src/Ntfs.antt =====
-- The NTFS engine (gui/ntfs_engine.py): its extents and errors.
pub mod Runlist
pub mod Bitmap
pub mod Disk
pub mod Patches
pub mod Gaps
pub mod NextGap
pub mod HighWater
pub mod Runs
pub mod Move
pub mod Compact
pub mod Stream
pub mod Records
pub mod Attributes
pub mod Layout
pub mod Candidates
pub mod Defrag
pub mod ExtentPlan
pub mod Slices
mod Tests
use linux_defragger.Prelude.{ℕ, Option}
