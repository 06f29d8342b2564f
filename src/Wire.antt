-- ===== src/Wire.antt =====
-- The wire format of src/wayland/Connection.cpp and its header: arguments, messages, framing.
pub mod Bytes
pub mod Args
pub mod Message
pub mod Proxies
pub mod Receive
mod Examples
