-- ===== src/Lib.antt =====
-- differ.nvim: the sidecar of a Neovim plugin for reviewing pull requests on GitHub.
--
-- The sidecar (cmd/differ-sidecar) reads requests from standard input, one JSON object to a line, and
-- answers them on standard output. internal/server cuts the input into frames, gates everything
-- behind a `hello`, runs each request in a goroutine and serialises the answers over a channel.
-- internal/handlers decodes and checks the parameters of each method, and guards what is anchored to
-- a commit against a head that has moved. internal/github talks to GitHub over REST and GraphQL, maps
-- every failure to the closed set of codes of internal/protocol, and keeps the contents of files in a
-- cache that evicts the least recent.
--
-- Files and code:
--   Common      the names that all modules share, `ℤ` for Go's integers (wrap-around written out
--               where the code can overflow), and what is used of Go's `strings` and `strconv`.
--   Protocol    internal/protocol: codes, requests, responses, errors.
--   Server      internal/server. Frame is `readFrame` and `discardFrame`, Run is `run` and
--               `toRPCError`, Session is `Run` and `dispatch` as a step relation; their child modules
--               hold the proofs.
--   Github      internal/github. Cache is cache.go, Errors is errors.go, Client is client.go, rest.go
--               and graphql.go, with the loops over pages in Pages and `nextLink` in Links. Auth is
--               auth.go, Pulls is prs.go, Conversation is threads.go, timeline.go and checks.go, Reviews
--               is reviews.go, merge.go, state.go, viewed.go and `ResolveThread`, Comments is
--               comments.go, Files is files.go; Documents, Dtos and Results are the texts and shapes.
--               Sample is a small GitHub for the tests.
--   Handlers    internal/handlers: parameters, checks and `guardHead`; in Mutations the methods that
--               change something, in Reads the others and `hello`, in Methods `NewRegistry`.
--   Logx        internal/logx: `ParseLevel`.
--   Sidecar     cmd/differ-sidecar: the token, the client, the registry and the engine put together.
--   Plugin      lua/differ/sidecar/init.lua, the client in the editor that starts the sidecar and talks
--               to it. Streams is `consume_lines`, `push_line` and `with_tail`, State its data, Client the
--               functions on it up to `schedule_restart`, Process the callbacks of the process, Events the
--               jobs of the main loop, `M.request` and `M.stop`; the other child modules hold the proofs,
--               and Served joins this client to the server of cmd/differ-sidecar.
--   Demo        .demo/fake-sidecar: the stand-in for GitHub with its own review state, in Stamped what
--               stamps times or makes ids, in Canned the fixed data.
--   A function of the source has its name here with underscores: `postNewThread` is
--   `post_new_thread`. A method of `Client` is a function from the state of the client to a result and
--   the state after it; an error is a value (`Result`).
--
-- The engine: the state of `Run` holds the input that is not read, the requests that have a goroutine,
-- the channel's content and what was written. A step reads a frame and dispatches it, or runs the
-- handler of some goroutine to its end and sends its answer, or writes the oldest answer of the
-- channel, or returns. Steps come in any order, so every interleaving of whole handler runs is covered;
-- a handler that runs is one step, and the handlers' shared state is a parameter. A send waits for room
-- in the channel, of 64. The stream is the list of the bytes that the reader will deliver before it
-- reports its end. The loop of `readFrame` runs on fuel, one more than the bytes of the stream, which is
-- enough for every buffer of positive size.
--
-- Pages: `getPaged` and the three walks over GraphQL cursors run on fuel, which is the bound of 100
-- pages that the code itself sets (`maxPages`, `gqlMaxPages`). `walk` is the loop that `GetPR`,
-- `GetThreads` and `GetTimeline` share, with the fetch and the rest of the body as arguments.
--
-- The cache: list elements have identities, and the map holds identities as the code's map holds
-- pointers. The loop of `evict` runs on fuel, the length of the list, which is enough since each round
-- drops one element. Sizes are the bytes of the texts in UTF-8; `bytes` is a natural number, and the
-- invariant shows that no subtraction from it is cut off. The mutex makes each operation one step.
--
-- The plugin's client: an event is a call of `M.request` or `M.stop`, the turn of the oldest job of the
-- main loop, a chunk or the exit of a process, the end of a timeout or of the delay of a restart; a
-- history is any list of events, so they come in any order. A timeout may end, and a process may print
-- or exit, at any time and for any id, also when in the editor it could not. A callback of a caller is
-- its number, and two clients are the same table exactly if their numbers are. `M.ping` is an event
-- like any other request, and the end of the editor a stop. `pairs` gives the pending callbacks in the
-- order of their registration. The table of log lines that `last_exit` shares with its client is a copy:
-- `vim.system` reports the exit of a process when its streams have ended. The loop of `consume_lines`
-- runs on fuel, one more than the bytes, which is enough since a round takes a newline away.
-- Texts of the streams are bytes. Where the code can raise an error of Lua, by the index of an answer's
-- `error`, by an error message that is no string, or by parameters that cannot be encoded, the function
-- ends there as in the source, and the shell's `raised` has the callbacks that this drops. What a
-- caller's callback does is not modelled.
--
-- Parameters of the model: GitHub (`network`, whose answer may depend on all calls before), the clock,
-- the decoders of JSON (`Codec`, one for each shape), the escaping and the errors of URLs, the
-- environment and the run of `gh` (`Host`), the decoders of the parameters (`ParamCodec`), and in the
-- engine the decoder of requests; the engine's own proofs also hold for every registry of handlers.
-- `http.Header.Get` is a function from names. The headers that a request carries besides its
-- media type, timeouts, cancellation and the limit of 32 MB on a response's body are not modelled. The
-- two downloads of `GetFileVersions` run at once; here each is served as a whole, in either order
-- (`base_first`, which in the registry may depend on the state). In the plugin's client they are the
-- decoding of JSON and `tostring` (`Json`), and what a start of the process meets (`Spawn`). `strings.ToLower` is modelled as far as a
-- search for ASCII letters can tell.
--
-- Not modelled: the rest of the Lua plugin, which is its user interface; in its client the search for
-- the binary and the functions that only report its state; the writing of log lines, signals and the exit codes of the two main
-- programs; and in the demo the sharing of slices between the state and what a read returned.
pub mod Common
pub mod Protocol
pub mod Logx
pub mod Server
pub mod Github
pub mod Handlers
pub mod Sidecar
pub mod Demo
pub mod Plugin
