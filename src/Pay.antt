-- ===== src/Pay.antt =====
-- The payment: src/pay.rs.
pub mod Select
pub mod Covered
pub mod Fewest
pub mod Errors
pub mod Api
pub mod Inputs
pub mod Arrange
pub mod Construct
pub mod Transfer
pub mod Unchanged
pub mod Insufficient
pub mod Names
pub mod Change
