-- ===== src/Quic/Frame/Parse.antt =====
-- What `parse_frame` makes of any bytes, and of the wire form of each frame that it knows.
mod Progress
mod Wire
pub use Progress.*
pub use Wire.*
