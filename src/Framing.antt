-- ===== src/Framing.antt =====
-- Packet framing: Base/Header.h, Base/DataBlock.h, Base/Packet.h and Base/NetworkMessage.h.
pub mod Wire
pub mod Block
pub mod Message
