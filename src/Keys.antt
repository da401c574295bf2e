-- ===== src/Keys.antt =====
-- leantty_ssh/leantty-ssh-core/src/keygen.rs: key files. Keys.Disk is the file system that it uses.
pub mod Disk
pub mod Frame
pub mod Crate
pub mod Comment
pub mod Transaction
pub mod PairStates
pub mod Commit
pub mod Staged
pub mod Marks
pub mod Apart
pub mod Spared
pub mod Commented
pub mod Paths
pub mod Passphrase
pub mod Replaced
pub mod Changed
pub mod Names
pub mod Pairs
pub mod Fresh
pub mod Made
pub mod Generated
pub mod Exported
pub mod Inspect
mod Tests
mod CommentTests
