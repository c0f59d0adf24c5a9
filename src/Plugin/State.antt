-- ===== src/Plugin/State.antt =====
-- lua/differ/sidecar/init.lua: the state of the client. A callback of a caller is its number; `self` of
-- the source is the number of the client, so that two clients are the same table exactly if their
-- numbers are.
use differ_nvim.Common.{ℕ, String, Bool, Option, List}
use differ_nvim.Common.Int.{ℤ}
use differ_nvim.Plugin.Streams.{Line}

-- A callback: a caller's, or the one of `handshake` with the client that it belongs to.
pub data Callback : Type 0 where
  caller greeter : ℕ → Callback

-- A value of Lua: nil or false; a string; a number, with its `tostring`; or any other, which cannot be
-- joined to a string, such as the `vim.NIL` that null is decoded to.
pub data Value : Type 0 where
  nil : Value
  text number : List ℕ → Value
  other : String → Value

-- An error that a callback gets.
pub record Failure : Type 0 where
  pub code : Value
  pub message : Value
  pub retry_after : Value

-- What a callback is called with: an error, or a result, which may be nil.
pub data Outcome : Type 0 where
  failed : Failure → Outcome
  answered : Option String → Outcome

-- The parameters of a frame: those of `hello`, or the caller's, which may be nil.
pub data Params : Type 0 where
  hello_params : String → ℤ → Params
  given : Option String → Params

-- A frame for the process.
pub record Outgoing : Type 0 where
  pub id : ℕ
  pub method : String
  pub params : Params

-- The parameters of a caller, by what `vim.json.encode` makes of them: a text, nothing where they are nil,
-- or an error of Lua.
pub data Given : Type 0 where
  encodable : Option String → Given
  unencodable : Given

-- An entry of `queue`.
pub record Queued : Type 0 where
  pub method : String
  pub params : Given
  pub owner : ℕ

-- An answer as decoded from a line: a table with an id that is a number.
pub record WireError : Type 0 where
  pub code : Value
  pub message : Value
  pub retry_after : Value

-- The field `error`: nil or false; a table, or a string, whose fields are nil; or a value that cannot be
-- indexed, such as `vim.NIL`, a number or true.
pub data ErrorField : Type 0 where
  no_error : ErrorField
  indexed : WireError → ErrorField
  unindexed : ErrorField

pub record Reply : Type 0 where
  pub id : ℕ
  pub error : ErrorField
  pub result : Option String

-- The fields of a result of `hello` that are read.
pub record Hello : Type 0 where
  pub protocol : Option ℤ
  pub binary : Option String

-- `vim.json.decode` on a line, where it gives a table with such an id; the fields of a result, where it
-- is a table; `tostring`.
pub record Json : Type 0 where
  pub reply : Line → Option Reply
  pub hello : Option String → Option Hello
  pub itoa : ℤ → List ℕ

-- `differ.sidecar.Client`. `proc` holds what was written to the process, oldest first. An entry of
-- `pending` has its timer armed as long as it is there.
pub record Client : Type 0 where
  pub self : ℕ
  pub proc : Option (List Outgoing)
  pub running : Bool
  pub ready : Bool
  pub stopping : Bool
  pub next_id : ℕ
  pub pending : List (ℕ × Callback)
  pub queue : List Queued
  pub stdout_buf : List ℕ
  pub stderr_buf : List ℕ
  pub stderr_log : List Line
  pub attempts : ℕ
  pub binary : Option String

-- What the main loop was handed by `vim.schedule`: to call a callback, the end of a timeout of a client's
-- id, or a restart of a client.
pub data Job : Type 0 where
  call : Callback → Outcome → Job
  timed_out : ℕ → ℕ → Job
  retry : ℕ → Job

-- Everything outside of the client: the jobs, the oldest first; the restarts whose delay runs, with that
-- delay; the last crash; the number of the next client; the calls of callers, the oldest first; and the
-- callbacks that were dropped, or not run to their end, because an error of Lua was raised.
pub record Shell : Type 0 where
  pub jobs : List Job
  pub delayed : List (ℕ × ℕ)
  pub last_exit : Option (ℤ × List Line)
  pub next_client : ℕ
  pub called : List (ℕ × Outcome)
  pub raised : List Callback
