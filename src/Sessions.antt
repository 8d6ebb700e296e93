-- ===== src/Sessions.antt =====
-- src/suiteharness/sessions: the in-memory session store (memory.py) and its vocabulary
-- (models.py). Every method's critical section, under the one lock, is a function on the store.
pub mod Model
pub mod Claims
pub mod Payloads
pub mod ResumePoints
pub mod Transcript
pub mod Checkpoints
pub mod Histories
mod Tests
