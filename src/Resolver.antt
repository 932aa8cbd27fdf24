-- ===== src/Resolver.antt =====
-- crates/doover-core/src/resolver.rs: a command line, and the paths that it may affect.
pub mod Ranges
pub mod Braces
pub mod Outcome
pub mod Lexical
pub mod Syntax
pub mod Words
pub mod Scope
pub mod Redirects
pub mod Tokens
pub mod Commands
pub mod Walker
mod Along
mod Normal
mod Primitives
mod Handlers
mod Contributions
mod Severities
mod Counted
pub mod Covered
mod Normalized
mod Unbraced
mod Expansion
mod Shrinking
mod Fuel
mod Limit
mod Choices
mod Hidden
mod Positionals
mod Tests
