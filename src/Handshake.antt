-- ===== src/Handshake.antt =====
-- internal/homeconnect/session.go: send, sendSync, the handshake and PostConnectInit, as one caller
-- sees them. What the socket and the appliance answer to each write is a script; the map of
-- pending requests under other goroutines is in Session.
pub mod Exec
pub mod Program
pub mod Numbering
pub mod Order
pub mod PostInit
