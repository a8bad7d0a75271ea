-- ===== src/Tracker.antt =====
-- tracker/: the packets of the UDP tracker protocol, and the tracker that sends them.
pub mod ConnectPacket
pub mod AnnouncePacket
pub mod Layout
pub mod State
pub mod Connect
pub mod Bounds
pub mod Accept
pub mod Peers
pub mod Announce
pub mod Silent
pub mod Url
pub mod Ends
pub mod Released
