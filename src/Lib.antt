-- ===== src/Lib.antt =====
-- The core of the LogDNA agent: what it has sent of each file, which lines it sends and in what form,
-- and how many requests it has in flight.
--
-- Lines that are read from files pass through the stages of the middleware, which drop or rewrite
-- them. The HTTP part batches what is left and asks the limiter for a slot for each request. When a
-- request succeeds, the spans of bytes that it carried are merged into the vectors of spans of their
-- files and written to the offset database, from which the agent resumes after a restart.
--
-- Base, Base.Tests and Base.Lists: names, Boolean tests, lists and results that all modules share.
--
-- State, for common/state/src:
--   State.Span is span.rs up to `Span::coalesce`, with the children's lemmas on merges in
--   State.Span.Merge. State.SpanVec is the type `SpanVec` of span.rs: `insert` with its inner
--   functions `partition_to_window` and `merge_in_span`, `contains`, `first_gap`, `iter_gaps` and
--   `from_iter`. Its children describe `insert` as a recursion on the list (Place), relate one pass
--   of the loop (Step) and the whole loop (Loop) to it, and carry the order of the spans (Order), the
--   bytes that they cover (Cover), the free bytes between them (Spaced, Spacing), and what follows
--   for the operations (Insert, Contains, Gaps).
--   State.Codec is the encoding of a row in `handle_file_offset_flush` and its decoding in
--   `FileOffsetState::offsets`, both of state.rs; the children are about words (Words) and about
--   rows (Rows). State.Table is `HashMap` as a list of entries.
--   State.Events is the rest of state.rs: `handle_file_offset_flush`, `handle_file_offset_event` and
--   the fold in `FileOffsetState::run`. The slot map and the database are parameters
--   (Events.Interface). Its children follow a flush through its loops (Kept, Merge, Rows, Flush) and
--   the fold through its events (Synced, Run). Files are drained in the order of a list; the order
--   of a hash map is not specified.
--
-- Middleware, for common/middleware/src:
--   Middleware.Interface holds what the stages use of other crates: lines, regular expressions and
--   sets of them are parameters, with their documented behaviour as laws. Middleware.Redact and
--   Middleware.LineRules are line_rules.rs: first the part of `redact` that handles ranges, then the
--   stage itself. Middleware.K8sLineRules is the filter of k8s_line_rules.rs, with
--   `set_k8s_line_rule`, which reads the rules, in the child Parse. Expressions has the regular
--   expressions of that file as terms, and which texts they match; what the regex crate captures for
--   an expression is a parameter. Found and Read are about what is read.
--   Middleware.MetaRules is meta_rules.rs with `substitute` of common/config/src/lib.rs: the rules and
--   the substitution map, with `process_line` in the child Process; the children Merged and
--   Substitute are about the labels and annotations that are overridden and about `substitute`. Middleware.Executor is the executor of lib.rs.
--
-- Fs, for common/fs/src:
--   Fs.Debouncer is the queue of one path in cache/event_debouncer.rs, over the events of
--   common/notify_stream/src/lib.rs; Fs.Debouncer.Fifo is about the order in which they leave.
--
--   Fs.Cache is cache/mod.rs with entry.rs, event.rs, symlinks.rs and guarded_option.rs beside it. A
--   call is a function from the state to the new state, with a value or the way in which the call ends
--   without one (Effect); the vectors that calls hand down by reference are fields of the state.
--   Passes is `is_reachable` and the tests around it, Register is `register`, `unregister` and
--   `register_as_child`, Insert is `insert` and `insert_helper`, Remove is `remove` and `drop_entry`,
--   Process is `process` with a function for each event, Offsets is `get_initial_offset`, Start is
--   `FileSystem::new`, and Stream is what `stream_events` and `get_retry_events` decide. Other crates
--   and the answers of the operating system, which are the same throughout one call, are a record
--   (Data.World). Tidy and its children follow the descriptors of paths through all calls, and in
--   Tidy.History the answers change from one call to the next; each other child is about the
--   operation of its parent.
--
-- Shared, for common/misc/shared_types/src:
--   Shared.Rule is rule.rs, Shared.Lookback is lookback.rs, Shared.DirPath is dir_path.rs. Paths are
--   lists of names (Shared.FilePath); the matching of patterns and canonicalizing are parameters.
--
-- Http, for common/http/src:
--   Http.Limit is limit.rs. Each access to the atomic counter is one step of a relation on worlds, in
--   which any number of tasks interleave. Http.Retry is the count of the bytes of retry files in
--   retry.rs; each pass of its loop is given what it reads from the counter, which other tasks change.
--   Http.Batch is the loop of batch.rs that fills a batch; the items, the end and the timeouts that it
--   selects are a list.
--
-- Numbers are natural numbers. Where the source computes on `u64` the wrap of a release build is
-- written out. A call that panics gives `none`, and a result type stands for what the code returns as
-- an error. Time, logging and metrics are left out.
--
-- Bounds and fuel. The loop of `SpanVec::insert` gets four passes more than there are spans; each pass
-- but the first few removes a span. The loop that decodes a row gets the length of the row, of which
-- each pass drops eight bytes. `partition_point` counts leading items, which is what a binary search
-- finds in the vectors in order that the theorems are about. The depth of recursive calls on the file
-- system cache is bounded by a number of the parameter; a call that reaches it is told apart from the
-- others, and what is said of the cache holds of its state then too.
--
-- Not modelled: `SpanVec::remove`; the database and the channels of the offset state; the priority
-- queue around the debouncer, `resolve_valid_paths` of the cache, and the readers of files and of the
-- journal; the files of retries and the HTTP client; the configuration but for `substitute`; the
-- sources and the leases of Kubernetes; metrics; letters and blanks beyond ASCII in the settings of the
-- lookback; relative paths.
pub mod Base
pub mod State
pub mod Middleware
pub mod Fs
pub mod Http
pub mod Examples
pub mod Shared
