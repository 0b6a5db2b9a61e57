-- ===== src/Tests.antt =====
-- The theorems at concrete inputs, by the part of the program.
mod Profiles
mod Retained
mod Bridges
mod Bundles
mod Parameters
mod Connection
mod Messages
mod Frames
mod Features
mod Settings
mod Commands
mod Documents
mod Store
