-- ===== src/Decoder.antt =====
-- internal/core/decoder: the L2 to L4 decoder with tunnels and IPv4 reassembly.
pub mod Ethernet
pub mod Ip
pub mod Transport
pub mod Tunnel
pub mod RateLimiter
pub mod Fragments
pub mod Reassembly
pub mod Standard
