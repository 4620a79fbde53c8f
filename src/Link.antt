-- ===== src/Link.antt =====
-- The transmitter of src/encap.c and src/fragmentation.c and the receiver of src/deencap.c and
-- src/reassembly.c put together: the PPDUs of a flow, given to the receiver one after another.
pub mod Headers
pub mod Receiving
pub mod Cont
pub mod Rebuilt
pub mod End
pub mod Ended
pub mod Fresh
pub mod Start
pub mod Started
pub mod Comp
pub mod Cases
pub mod Step
pub mod Follow
pub mod Exchange
pub mod Delivery
pub mod Others
pub mod Safety
pub mod Sync
pub mod Connected
pub mod Contextless
pub mod Advance
pub mod Fpdus
pub mod Rounds
pub mod Packed
pub mod Made
