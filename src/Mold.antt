-- ===== src/Mold.antt =====
-- MoldUDP64 packets, src/mold: the header, the packer and the decoder.
pub mod Packet
pub mod Packer
pub mod Decoder
pub mod Transfer
mod Examples
pub mod GapInjector
pub mod UdpSender
