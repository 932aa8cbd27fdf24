-- ===== src/Lib.antt =====
-- doover: a journal of shell commands with snapshots of what they touch, and their undo.
--
-- The program classifies a command by a registry of rules, records it in a journal with manifests of
-- the paths that it may change, and undoes or redoes it by restoring the manifests. All paths here
-- are below crates/doover-core/src/.
--
--   Base       lists, numbers and tests that all parts share
--   Paths      std::path::Path as its components
--   Registry   registry.rs: `Rules` the data and `validate`; `Lookup` `score_command_match` and
--              `lookup_command`; `Overlay` `from_rules`, `insert_overlay`, `with_overlay`
--   Resolver   resolver.rs: `Syntax` the trees of the parser; `Outcome` `Severity`, `Out`; `Words`
--              `Word` and `pieces_to_word`; `Ranges` and `Braces` `expand_braces_masked`; `Lexical`
--              `normalize_lexical`, `find_repo_root`, `glob_match_allowed`; `Scope` `add_path`,
--              `insert_scoped`; `Redirects`, `Tokens`, `Commands` the handlers; `Walker` the walk and
--              `resolve`
--   Snapshot   snapshot.rs: `Manifest` the data; `Same` `describes_same_state` (and `same_state` of
--              undo.rs); `Errors` the errors, and the record `Store` of the methods that undo.rs calls
--   Journal    journal.rs: `Records` the rows; `Tables` the SQL that several methods share; `Writes`
--              `begin_session` to `set_pinned`; `Undoing` `record_undo`; `Reads` the queries of the
--              engine; `Retention` `live_hashes` and `prune_before`
--   Undo       undo.rs: `Types` the reports and errors; `Select` which action; `Check` the conflicts
--              and the plan; `Restore` the restores, their rollback and the record; `Engine`
--              `execute`, `undo` (here `undo_action`) and `redo` (`redo_action`)
--   Maintenance maintenance.rs: `Budget` the options and `from_env`; `Gc` `gc`, with the journal's
--              `oldest_evictable_batch_end`
--   Hooks      hooks.rs: `Events` the events and settings; `Io` what the handlers call; `Pre`
--              `handle_pre`; `Post` `handle_post`; `AutoGc` `maybe_gc`
--   Inspect    inspect.rs: `Live` what is read of the file system, with `hash_file` of snapshot.rs;
--              `Diff` `diff_manifest`
--
-- The engine and garbage collection call the journal directly and the store through the records
-- `Store` and `GcStore`, whose operations are parameters. A table of SQLite is a list in the order
-- of its ids, and a transaction that fails leaves the lists as they were. Ids, sequence numbers
-- and times are natural numbers. The walk from an undo to its command is bounded by 64 hops, as in
-- the code. The eviction loop has as many rounds of fuel as the journal has actions, and one more,
-- which is enough since each round removes an action. Its deadline is a parameter that tells of
-- each round whether it is late. The digits of an id in a text are bounded by the id plus one,
-- which is never reached. The YAML parser, the listing of a directory, the clock and the texts of
-- paths and errors are parameters. In the engine's reports each text is a constructor that holds
-- its parts.
--
-- The resolver's record `Env` holds what it calls: the shell parser, of which the trees are those of
-- `Syntax`, the glob crate, the links and files that exist, the working and the home directory. A
-- glob walk is the matches that arrive in time and whether the time ran out. A text is a list of
-- characters, a path its components, so that a slash too many is lost. The integers of a brace range
-- are given by sign and magnitude; their difference wraps, as in the release build, and a range whose
-- loop that build never leaves is an outcome of its own, `range_endless`. There the shipped `resolve`
-- does not return; with overflow checks it panics, a flag of `Out` records that, and `resolve` gives
-- the unknown resolution, which is what the model returns. The word parser is taken to return. Brace expansion has as much fuel as the word has unquoted opening
-- braces, and one more, which is enough since each call takes one away; the hops along links are
-- bounded by 8 and the depth of nesting by 256, as in the code.
--
-- The handlers of the hooks call the registry's loader, the resolver, the journal and garbage
-- collection directly, and the store, the clock, the JSON decoder and the redaction through the record
-- `HookIo`. What the store skips is part of its capture. Time is in milliseconds.
--
-- Not modelled: the object store and its file system, redaction, the command line, and how the database is opened,
-- retried, compacted and measured; the operations of the journal themselves fail for the reasons that
-- their own SQL and checks give. Where the hooks call them, an oracle (`fault` of `HookIo`) says whether
-- SQLite or the file makes the call fail first; for the undo engine and garbage collection it does not.
pub mod Base
pub mod Paths
pub mod Registry
pub mod Resolver
pub mod Snapshot
pub mod Journal
pub mod Undo
pub mod Maintenance
pub mod Hooks
pub mod Inspect
