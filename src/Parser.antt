-- ===== src/Parser.antt =====
-- parser.c: the loader of the configuration file. Its memory pool and the values of the parameters
-- are modelled.
pub mod Mpool
pub mod Numbers
pub mod Values
pub mod Expr
pub mod Tokens
pub mod Sections
pub mod Globals
pub mod Files
pub mod Parse
pub mod Load
pub mod ConfigFile
pub mod Owner
pub mod Params
