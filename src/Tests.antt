-- ===== src/Tests.antt =====
-- The theorems at concrete inputs.
mod Words
mod Buffers
mod Predictors
mod Machine
mod Memories
mod Caches
mod InstrCaches
mod Pipeline
mod Decoders
mod RiscvDecoder
mod Timing
mod Stages
