-- ===== src/Lib.antt =====
-- Cachy is a local proxy between coding agents and the providers of language models. It finds the
-- parts of a request that change from call to call (the live zones), lets compressors propose shorter
-- texts for them, keeps removed contents in a content-addressed store, observes its traffic, and is
-- operated over an admin interface. This library models these parts and proves what makes them correct.
--
-- The parts, the file of each and the code that it follows:
--
-- - Tokens: internal/tokens/counter.go. `count`, `estimate` and `savings` decide for the pipeline
--   whether a proposal is shorter.
-- - Compress.Block, Compress.LiveZone: internal/compress/livezone.go. `detect_live_zones` cuts the body
--   of a request into blocks and says which may be compressed; LiveZone.Classify finds a block's type.
-- - Compress.Native: internal/compress/native_text_log.go and native_structured.go. Collapse has
--   `collapse_adjacent` and `collapse_blank_runs`, Diff has `compress_diff`, Dispatch the choice by type.
-- - Compress.Pipeline: internal/compress/pipeline.go. `apply` asks the compressors for each selected
--   live block and applies the first proposal that saves tokens.
-- - Ccr.Marker, Ccr.Store, Ccr.Retention: internal/ccr. Addresses and the markers that stand for a
--   content, the object store on a disk, and the cleanup of its objects. The disk is an association
--   list in Ccr.Store.Files, and the steps of `Put` are one function each, from `on_stat` to
--   `finish_rename`.
-- - Observability: internal/observability. Telemetry is the store of request records, Build the record of
--   a request, Logging the line of the log.
-- - Proxy: internal/proxy/headers.go, paths.go, upstream.go and proxy.go. Headers copies headers, Paths
--   joins paths, Handler is one exchange, which ends in the log and in the telemetry, and Setup is the
--   handler of `New`, which answers the checks of health itself.
-- - Platform: internal/platform/paths.go, the directories of the configuration, the state and the cache.
-- - Admin: internal/admin/auth.go and server.go. Admin is the token check, Admin.Server the handlers over
--   one state, Admin.Metrics the counters over the telemetry, Admin.Generated the making of a token.
-- - Plugin: internal/plugin/manifest.go, the validation of a plugin's manifest; Plugin.Host: host.go, a run
--   of a plugin under its limits; Plugin.Compressor: wasm_compressor.go, which is a compressor of the
--   pipeline; Plugin.Lifecycle: lifecycle.go, the plugins on a disk, and in its child Fixture their test.
-- - Install: internal/install. Install.Codex is the managed block in config.toml: codex.go edits a text,
--   and a run takes a file to a file; Install.Claude are the settings of claude.go, over the maps of
--   Install.Json, whose fields have an order that Go's maps do not have; Install.Recipes is recipes.go.
-- - Doctor: internal/doctor/doctor.go, the checks and their report. Doctor.Configured connects it with
--   Install: what one writes, the other accepts.
-- - Cli: internal/cli/cli.go. Run has the commands, Integrations and Plugins two groups of them, Flags the
--   part of package flag that they use, Serve the server of the proxy. A run takes a world (the clients'
--   files and the plugins) to a world, an exit code and the output; its arguments behind the flags are
--   not read.
-- - Release: internal/release, over a disk of its own. Release.Archive is `PackageArchive` of archive.go,
--   Release.Evidence are the SBOM and the notes of evidence.go, Release.Agreement connects the two;
--   Release.Command: cmd/cachy-release/main.go.
-- - Base and Text are the shared helpers: Go's integers and results, and the functions of packages
--   strings, strconv and unicode/utf8 that Cachy uses, over texts as lists of bytes. Http has the
--   parts of net/http's requests that are read or written.
--
-- Errors are the constructor `err` of Result. What a call of the operating system, of the network or
-- of the clock returns is an argument (`PutCalls`, `GetCalls`, `Outcome`, `Clock`, `Machine`,
-- `Execution`, `Files`, `FileCalls`, `MarkCalls`, `Bench`, `Deps`, `Calls`), so that the theorems
-- hold for every outcome. These are parameters too: SHA-256, path/filepath.Join, encoding/json
-- (`JsonDecoder`, `JsonCodec`, json.Compact, and the codecs of the admin interface and of plugins),
-- the TOML decoder, the WebAssembly runtime, url.Parse, net.SplitHostPort, net.ParseIP, sort.Slice,
-- rand.Read, the archive writers (`Writers`), debug.ReadBuildInfo, and the tables of package unicode
-- outside ASCII (`UnicodeTables`). Mutexes make each method one step, so that concurrent calls are
-- sequences of steps.
--
-- Bounds: every loop is structural recursion on a list or a text, or on the well-founded order of ℕ
-- for the digits of a number; none runs on fuel. Token differences wrap around at 64 bits (`wrap64`);
-- sums of file sizes and of latencies and counters are not wrapped, since no disk and no run reaches
-- 2^63 of them. Times and durations are integers of nanoseconds. The ceilings of float64 quotients in
-- the estimator are exact below 2^53 runes.
--
-- Not modelled: the main function of cmd/cachy and the re-exports of pkg, which only call what is modelled;
-- the writing of JSON replies, the HTTP client and the listening behind the doctor and the proxy, the
-- making of parent directories, and ServeMux's redirects of unclean paths, which are the libraries' work.
pub mod Base
pub mod Text
pub mod Http
pub mod Tokens
pub mod Observability
pub mod Compress
pub mod Ccr
pub mod Proxy
pub mod Platform
pub mod Admin
pub mod Plugin
pub mod Install
pub mod Doctor
pub mod Cli
pub mod Release
