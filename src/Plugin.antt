-- ===== src/Plugin.antt =====
-- lua/differ/sidecar/init.lua: the plugin's client of the sidecar. Texts of the streams are bytes.
-- `tostring` of a number, the decoding of JSON and the start of the process are parameters.
pub mod Streams
pub mod State
pub mod Client
pub mod Process
pub mod Events
pub mod Callers
pub mod Kept
pub mod Answered
pub mod Lines
pub mod Live
pub mod Waiting
pub mod Frames
pub mod Served
pub mod Tail
mod Tests
