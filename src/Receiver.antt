-- ===== src/Receiver.antt =====
-- apps/client/udp_receiver.c: sequencing of the MoldUDP64 feed, the reorder pool, the requests to the
-- rewinder and the publication of packets to the dispatcher.
pub mod Pool
pub mod Gap
pub mod Loop
pub mod Turn
mod Tests
