-- ===== src/Codec.antt =====
-- internal/dnscodec/codec.go: DNS messages as server addresses and favicons.
pub mod Opt
pub mod Labels
pub mod Tld
pub mod Query
pub mod Response
pub mod Favicon
pub mod Status
