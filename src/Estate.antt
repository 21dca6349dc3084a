-- ===== src/Estate.antt =====
-- estate/state.py and estate/destroy.py: the competition's state document, and the destruction of
-- what it records.
pub mod Rows
pub mod Flat
pub mod Destroy
mod Tests
