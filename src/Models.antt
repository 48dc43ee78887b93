-- ===== src/Models.antt =====
-- models/*.js: the documents of the three collections.
mod RoomDoc
mod MessageDoc
mod UserDoc
pub use RoomDoc.*
pub use MessageDoc.*
pub use UserDoc.*
