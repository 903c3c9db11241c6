-- ===== src/Auction.antt =====
-- src/coordinator/src/marketplace/auction.rs: the sealed-bid auction. `Defs` has the code, `Order`
-- what its comparison means, `Winner` what the winner is.
pub mod Float
pub mod Defs
pub mod Order
pub mod Winner
