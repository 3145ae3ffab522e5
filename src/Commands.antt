-- ===== src/Commands.antt =====
-- src/commands: the extension traits that build commands and read their replies, one module per
-- file. A key, a member or any other argument of a type with `ToRedisArgs` is the arguments that it
-- writes; a `&str` is one argument.
pub mod Options
pub mod Replies
pub mod SortedSet
pub mod Geo
pub mod Hash
pub mod Generic
pub mod Bitmap
pub mod Sets
pub mod Strings
pub mod PubSub
pub mod Scripting
pub mod Connection
pub mod Server
pub mod Json
pub mod Search
pub mod Pairs
pub mod Answers
