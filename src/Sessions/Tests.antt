-- ===== src/Sessions/Tests.antt =====
-- Sessions, run claims, transcripts and checkpoints at concrete inputs.
mod Data
mod RunClaims
mod Transcripts
mod Checkpoints
mod Points
