-- ===== src/Shared/Redis.antt =====
-- The Redis server that campusid/cache.py connects to, as an interface: a store of texts and sets
-- under keys, with the documented effect of each command on what can be read. A text
-- has its time to live beside it, in seconds. `elapse` is the passing of time between two commands.
-- A key of the source is a prefix and a name, and no two such pairs spell one key: the names are
-- digests, identifiers and session ids with no colon in them. The source holds texts and sets under different prefixes, and the laws speak of a set command on a
-- key that holds no text.
mod Model
pub mod Functions
pub use Model.*
