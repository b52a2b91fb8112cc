-- ===== src/Lib.antt =====
-- PluxMTX, a media server made from MediaMTX: the paths that sources, publishers and readers meet
-- on, the manager of the paths, the configuration of paths, the authentication of requests, the
-- core that creates and reloads the components, the sources that are kept running, and the
-- recordings that are listed and cleaned.
--
-- A path is one goroutine with a loop of messages; the manager is another, which holds the map of
-- paths, finds the configuration of a name, asks for authentication and passes a request on to
-- the path. Neither shares memory with the other. Each handler is a function from the state to
-- the state; what a handler sends to others is appended to a list of effects in the state, so
-- that answers can be counted. A panic of a goroutine is `none`.
--
-- Base: Boolean tests, lists, texts and integers that the other modules share.
--
-- Conf (internal/conf/path.go): PathConf is the struct Path, as far as its fields are read or
-- copied by name, with the values of the others as one list; Conf.Names is IsValidPathName;
-- Conf.Find is FindPathConf, with the regular expression engine as a parameter.
--
-- Path (internal/core/path.go, internal/defs/path.go, and Start, Stop and ReloadConf of
-- internal/staticsources/handler.go): CorePath in Path.State is the struct path; Path.OnDemand,
-- Path.Ready and Path.Handlers have one function per method, in the words of the source
-- (doAddReader is do_add_reader); Path.Run is run and runInner, with an event for each case of
-- the select but chAPIPathsGet, which only reads. Path.Invariant holds what is true between two
-- rounds, Path.Accounts counts requests and answers, Path.Behaviour follows single runs.
--
-- Manager (internal/core/path_manager.go): Manager.Update is pathConfCanBeUpdated; Manager.State
-- the struct pathManager with the functions on its map; Manager.Handlers and Manager.Reload the
-- handlers; Manager.Loop is run, with an event for each case of its select but the end of the
-- program. A path is a name and a number, since two paths can follow each other under one name.
-- Authentication is a parameter. Manager.Told reads off the effects which configuration the paths
-- of a name were last sent, Manager.Keyed is about configurations that stand under their names,
-- Manager.Reloading and Manager.Statics follow doReloadConf, and Manager.Loop.Soundness the loop.
--
-- Auth (internal/auth, internal/conf/credential.go and the users of internal/conf): Authenticate
-- with the internal, HTTP and JWT methods; the record Libraries stands for the packages that are
-- called.
--
-- Api (internal/api/paginate.go): the page of a listing. The product of the page and the items
-- per page stays below 2 ^ 62, since both have 31 bits, so that int does not overflow.
--
-- Core (internal/core/core.go): Core.Conf is what the struct Conf of internal/conf/conf.go holds
-- for the components, with the six fields that each HTTP server has as one record; durations and
-- sizes are numbers, and so are the values that are only compared. A component that runs is an
-- instance with a number that no two share and the settings that it was created with, so that
-- what is connected to what can be stated: Core.Settings and Core.Servers give the settings in
-- createResources, Core.Closes the conditions of closeResources, Core.State the struct Core,
-- Core.Create createResources and Core.Reload closeResources, reloadConf, New and run. Whether
-- Initialize of a component succeeds is a parameter. A pointer is an address and what stands
-- there. The API takes on a configuration and sends it from a goroutine; the core receives those
-- that are under way in any order. An error on a reload is logged, which panics without a logger.
-- Core.Same compares the conditions with the settings, Core.Renewal follows each component
-- through a reload, Core.Upkeep a whole reload, Core.Logging the logger and Core.Runs the loop,
-- Core.Restart and Core.Missed are about what is restarted without a need, and what is not
-- restarted.
--
-- Record (internal/recordstore, internal/recordcleaner/cleaner.go): Record.Segments is
-- FindSegments on the files that WalkDir meets, with the decoding of a file's name as a
-- parameter, Record.Sorting and Record.Window what it returns; Record.Cleaner is the interval,
-- doRun, processPath and deleteExpiredSegments of the cleaner on the list of the files,
-- Record.Removal and Record.Interval what it removes and how often it runs; Record.Offset is the
-- encoding of offsets from UTC and Record.Roundtrip when it is decoded again.
--
-- StaticSource (internal/staticsources/handler.go): StaticSource.Loop is resolveSource and run,
-- with an event for each case of its select; Start and Stop, which the path calls, are in Path.
-- Each configuration that is sent to an instance is under way until it is received or its sender
-- gives up, in any order.
--
-- Playback (internal/playback/on_list.go, internal/playback/segment_fmp4.go): Playback.Listing is
-- onList from the segments on, with what is read of a file as a parameter; an entry is its start
-- and its end, of which the source keeps the difference. Playback.Bounds and Playback.Coverage
-- are about the entries. The handler takes its segments from FindSegments of Record.
--
-- Tests: concrete inputs.
--
-- Bounds: numbers are not bounded where the source uses int for counts of readers in memory;
-- durations are nanoseconds, and the time since Go's zero time counts as at least an hour. Every
-- loop runs over a list, except for the digits of a number in Record.Offset, which have one more
-- than the number as fuel: each step divides by ten. The order of a loop over a map, which Go
-- leaves open, is that of the list that stands for the map.
--
-- Not modelled: the protocol servers, the recorder, codecs and the media pipeline of streams,
-- where third-party libraries do the work; logging, metrics and external commands, which are
-- output only. Whether Stream.Initialize accepts the formats of a description is a field of the
-- description.
pub mod Base
pub mod Conf
pub mod Path
pub mod Manager
pub mod Auth
pub mod Api
pub mod Core
pub mod Record
pub mod StaticSource
pub mod Playback
pub mod Tests
