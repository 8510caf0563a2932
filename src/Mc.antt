-- ===== src/Mc.antt =====
-- internal/mc: the Minecraft side of the program.
pub mod VarInt
pub mod Frame
pub mod RateLimit
pub mod Fragment
pub mod Address
pub mod Server
pub mod Client
