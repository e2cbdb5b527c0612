-- ===== src/BookFiler.antt =====
-- tools/book_filer: the guarded mover of a library of books.
pub mod Path
pub mod FileSystem
pub mod Unique
pub mod Move
pub mod Moves
pub mod FreeNames
pub mod Journal
pub mod JournalLines
pub mod Manifest
pub mod Gates
pub mod Backup
pub mod Routing
pub mod Apply
pub mod Undo
pub mod Actuate
pub mod Contents
pub mod Kept
pub mod Steps
pub mod UndoOrder
pub mod Restored
pub mod RoundTrip
pub mod Gated
pub mod Guarded
pub mod Mirror
pub mod Resume
pub mod Classify
pub mod Ranks
pub mod Shelved
pub mod Identity
pub mod Identities
pub mod Names
pub mod CleanNames
pub mod Devices
pub mod SafeNames
pub mod Dedup
pub mod Counted
pub mod Every
pub mod Twins
pub mod Trash
