-- ===== src/PubSub.antt =====
-- server/pubsub: who publishes which tracks, and who subscribes to them.
pub mod Reader
pub mod Broker
pub mod Requests
pub mod View
pub mod Drop
pub mod Channels
pub mod Delivery
pub mod Hub
pub mod Strays
pub mod Announce
pub mod Mirror
pub mod Steps
pub mod Unpublish
pub mod Terminate
pub mod Maps
pub mod Consistent
pub mod Join
pub mod Withdraw
mod Examples
