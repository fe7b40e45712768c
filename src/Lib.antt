-- ===== src/Lib.antt =====
-- Elamite is a compiler from its own language to C, in src/ of the repository. This development models
-- parts of its semantic core: what the compiler knows of the ownership of types, when a match covers
-- its scrutinee, when two places share storage, which places are initialized after moves and joins,
-- how the type arena interns, resolves, compares and unifies types, the table of standard operations,
-- the scheduler of compile-time expansion, and where an offset lies in a text.
--
-- The parts and how they interact:
-- - Capability: src/operations.rs (`CapabilityState`, `OwnershipFacts`) and the folds at the end of
--   src/types/ownership.rs. The iterators of the folds are lists; an early `return` on an error is a
--   clause that ends the recursion.
-- - Types: src/types/context.rs. `Defs` holds the data of the arena, `resolve_inference` and
--   `type_children`; `Arena` the map of interned kinds, the initial arena and fresh variables;
--   `Search` the searches through the types below a type, with the occurs check; `Compare` and
--   `Equal` `unify` and `exactly_equal`; `Expected` the types that literals are expected to have;
--   `Literals` the names of the primitives and `integer_fits`.
--   A `TypeId` is an index of the list of kinds, and a read past the end, where the source panics,
--   is `none`; so is a push past 2^32 entries. A computation that changes the arena takes and
--   returns it. The files in Unify relate `unify` and `exactly_equal` to one relation, `Same`.
-- - Ownership: src/types/ownership.rs. `Defs` holds the tables that the query reads (`Program`), the
--   lookups of implementations and bounds and the answers that need no recursion; `Arms` the
--   answers for aggregates and builtin types, and `Query` the query, whose mutable cache and set of
--   types under visit are a state that is passed on. It asks Types for kinds and Capability for the
--   folds, in the order in which the source calls them.
-- - Coverage: src/check/coverage.rs and src/check/patterns.rs. `Defs` holds the coverage values, the
--   test for exhaustiveness and the report; `Match` the loop of `check_match_statement`. A set of
--   variants is a list without repetition, a set of Booleans two flags.
-- - Place: src/operations.rs (`OwnershipPlace::overlap`), and `Span` of src/source.rs. `Storage` says
--   what a place denotes: parts of objects, reached through pointers that may alias. A receiver
--   adaptation stays in place: the checks that ask the test strip it (`normalized_place`).
-- - Moves: src/check/moves.rs, the transitions, the trees below place roots (`Defs`) and the map of
--   roots (`States`), writes and joins. A map is an association list with one entry for a key.
-- - Operations: src/operations.rs, the standard calls, the rewrite of their types and the numeric
--   alternatives. The mutable closure of `map_types` is a function that takes and returns a state.
-- - Expansion: src/expansion/scheduler.rs. `Meter` holds the limits and the meter of one compile-time
--   execution, whose mutable receiver is taken and returned; `Chain` the requests and the walk of
--   `cycle_chain`; `Ready` the ordered set of ready keys as a sorted list; `Defs` the state of the
--   scheduler with `refresh` and `recover`; `Queue` enqueueing; `Run` selecting, completing, failing
--   and the run. A call that returns is `returned`; a failed `expect` of a 32-bit counter, a failed
--   assertion and spent fuel are other ends. The closure of `run` is a function with a state.
--   `Engine` is one invocation of src/expansion/engine.rs through it.
-- - Source: src/source.rs, the line starts of a text, as bytes, and `line_col`. The standard binary
--   search is a parameter, of which the theorem takes the documented contract (`IsBinarySearch`).
-- - Base: helpers that all of them share.
-- In each part the file Defs (with Arms, Query, Match, Literals, Arena, Search, Compare, Equal,
-- Expected, States, Rewrite, Numeric, Meter, Chain, Ready, Queue, Run, Engine and Lines)
-- follows the source, the others state and prove, and the files of examples hold tests at concrete
-- inputs.
--
-- Fuel: `resolve_inference` takes a unit for each binding slot and one more, for no variable is
-- followed twice. The searches take a unit for each type and one more. `unify` and `equal_inner` go
-- down both sides of an arena without a cycle (`IsRanked`), and some fuel is enough for every call;
-- for equality it exceeds the sum of the ranks of the two sides, for `expanded_primitive` the rank.
-- The ownership query takes a unit for each type of the arena and one more, for no type is visited
-- below itself. `join_nodes` takes a unit for each level of its trees.
-- `cycle_chain` takes the id of its request, for a parent has a smaller id. A recovery takes a unit for
-- each item, for a dependent has a larger id than its prerequisite; `next_ready` one for each item and
-- one more, for each turn recovers an item; `run` one for each execution left and one more.
-- `type_name` and the alias loops of Coverage take one for each type of the arena and one more: a
-- longer chain of aliases is a cycle, on which the source does not return.
--
-- Parameters, for code of other parts: the names of declarations and builtins, the fields of nominal
-- and foreign types at their arguments, the implementations and obligations, and `exactly_equal` are
-- fields of `Program`; the variants of the program and which declarations are enums are fields of
-- `Tables`. A theorem on the query asks that these name types of the arena only (`IsClosed`).
--
-- The interpreter of an invocation, its count of nodes, the kinds of tokens and the order of locations
-- are arguments, of which the order is asked to be reflexive.
--
-- Not modelled: the walk over syntax and statements in the checkers (check_pattern, the statements of
-- src/check/moves.rs, src/check/borrows.rs, src/check/calls.rs, src/traits.rs), which needs the typed
-- program; the substitution of types and the parsing of numeric literals; the rest of
-- compile-time expansion, which calls the scheduler; the lexer, the parser, name resolution, the
-- lowerings and the C backend; and the driver, the package tools and the formatter, which are input, output and printing.

pub mod Base
pub mod Capability
pub mod Types
pub mod Ownership
pub mod Coverage
pub mod Place
pub mod Moves
pub mod Operations
pub mod Expansion
pub mod Source
