-- ===== src/Backend.antt =====
-- What the services take from MongoDB (through Mongoose) and from Redis. Neither is under src/: both
-- are parameters, records of the commands that the code issues with their documented behaviour.
mod Keys
mod Commands
mod Recent
mod Sets
mod Documents
pub mod Memory
pub mod MemorySets
pub use Keys.*
pub use Commands.*
pub use Sets.*
pub use Documents.*
pub use Recent.*
