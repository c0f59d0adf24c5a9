-- ===== src/Sidecar.antt =====
-- cmd/differ-sidecar/main.go: the program. The logger is left out; `os.Exit` follows the end of `Run`.
pub mod Whole
pub mod Before
pub mod Greeting
pub mod Tests
use differ_nvim.Common.{ℕ, String, List, []}
use differ_nvim.Github.Auth.{Host, resolve_token, error_of}
use differ_nvim.Github.Cache.{new_cache}
use differ_nvim.Github.Client.{Env, Session}
use differ_nvim.Handlers.Methods.{Answer, Deps, new_registry}
use differ_nvim.Server.Run.{Registry}
use differ_nvim.Server.Session.{Engine, start}

-- `github.New`, with the error of the token's resolution.
unfoldable pub new_client : Host → Env → Env
new_client h env = record env { token_err = error_of (resolve_token h) }

-- The fields of a new `Client` that change.
unfoldable pub fresh_client : Session
fresh_client = record { viewer = ""; cache = new_cache; sent = [] }

-- `handlers.NewRegistry` in `main`.
unfoldable pub sidecar : Host → Deps → Registry Session Answer
unfolding new_client
sidecar h d = new_registry (record d { gh = new_client h d.gh })

-- The engine that `main` runs on its standard input.
unfoldable pub main_engine : List ℕ → Engine Session Answer
unfolding fresh_client
main_engine input = start fresh_client input
