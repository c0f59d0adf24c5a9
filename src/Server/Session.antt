-- ===== src/Server/Session.antt =====
-- internal/server: `Server.Run` and `dispatch` as a transition system. The reader, the handlers'
-- goroutines and the writer take their steps in any order; `outbound` is the channel between them.
pub mod Gate
pub mod Wire
pub mod Shared
pub mod Before
pub mod Account
pub mod Answers
pub mod Progress
pub mod Ending
use Prim.Native.String
use differ_nvim.Common.{
  ℕ, zero, suc, ◌+◌, ◌*◌, ◌≤◌, ◌<◌, ◌≡◌, String, Bool, true, false, ◌||◌, Option, none, some, List,
  [], ◌∷◌, ◌++◌, length, if◌then◌else◌, ◌==◌,
}
use differ_nvim.Common.Int.{ℤ, pos}
use differ_nvim.Protocol.{Request, Response}
use differ_nvim.Server.Run.{Registry, is_ok, bad_request, run}
use differ_nvim.Server.Frame.{
  fine, buffer_full, stream_end, Status, Frame, max_line, read_buf, read_frame,
}

-- The capacity of the outbound channel.
abbrev pub channel_cap : ℕ
channel_cap = 64

-- The state of `Run` over the handlers' shared state `S` and the results `R`. `input` is what the
-- reader has not read; `reading` is false once its loop has ended; `written` is the output, oldest
-- first; `closed` is set when `Run` has returned.
pub record Engine (S R : Type 0) : Type 0 where
  pub hello_ok : Bool
  pub inflight : List Request
  pub outbound : List (Response R)
  pub written : List (Response R)
  pub shared : S
  pub input : List ℕ
  pub reading : Bool
  pub closed : Bool

module _ {S R : Type 0} where
  -- `New`, with the input and the state that the handlers start from.
  unfoldable pub start : S → List ℕ → Engine S R
  start s input = record {
    hello_ok = false;
    inflight = [];
    outbound = [];
    written = [];
    shared = s;
    input = input;
    reading = true;
    closed = false;
  }

  unfoldable pub emit : Response R → Engine S R → Engine S R
  emit r e = record e { outbound = e.outbound ++ r ∷ [] }

  -- The `hello` branch of `dispatch`, when `run` has returned.
  unfoldable pub greet : Response R × S → Engine S R → Engine S R
  unfolding emit
  greet (r, s) e = emit r (record e { shared = s; hello_ok = is_ok r || e.hello_ok })

  -- The rest of `dispatch`: the gate, and the start of a goroutine. The flag is `helloOK`.
  unfoldable pub admit : Bool → Request → Engine S R → Engine S R
  unfolding emit
  admit false req e = emit (bad_request req.id "handshake required: send hello first") e
  admit true req e = record e { inflight = e.inflight ++ req ∷ [] }

  module _ (reg : Registry S R) where
    unfoldable pub dispatch : Request → Engine S R → Engine S R
    dispatch req e =
        if req.method == "hello" then greet (run reg req e.shared) e else admit e.hello_ok req e

    -- The `else` half of the loop's body: a frame that is JSON of a request, or that is not.
    unfoldable pub take_request : Option Request → Engine S R → Engine S R
    unfolding dispatch emit
    take_request none e = emit (bad_request (pos 0) "invalid JSON") e
    take_request (some req) e = dispatch req e

    -- The report on a frame past the limit; its id cannot be recovered.
    unfoldable pub report_oversized : Bool → Engine S R → Engine S R
    unfolding emit
    report_oversized true e =
        emit (bad_request (pos 0) "request exceeds the 16777216 byte frame limit") e
    report_oversized false e = e

    module _ (decode_request : List ℕ → Option Request) where
      -- The body of the loop of `Run` for one frame's line.
      unfoldable pub take_line : List ℕ → Engine S R → Engine S R
      unfolding take_request
      take_line [] e = e
      take_line (b ∷ line) e = take_request (decode_request (b ∷ line)) e

      unfoldable pub take_frame : Frame → Engine S R → Engine S R
      unfolding take_line report_oversized
      take_frame f e = take_line f.line (report_oversized f.oversized e)

      -- The loop goes on only while `readFrame` reports no error.
      abbrev goes_on : Status → Bool
      goes_on fine = true
      goes_on _ = false

      -- One round of the loop of `Run`.
      unfoldable pub receive : Frame → Engine S R → Engine S R
      receive f e = take_frame f (record e { input = f.rest; reading = goes_on f.status })

      pub data Step : Engine S R → Engine S R → Type 0 where
        read :
            (e : Engine S R) (f : Frame)
            → e.reading ≡ true
            → read_frame read_buf max_line e.input ≡ some f
            → length (receive f e).outbound ≤ channel_cap
            → Step e (receive f e)
        finish :
            (e : Engine S R) (before after : List Request) (req : Request)
            → e.inflight ≡ before ++ req ∷ after
            → length e.outbound < channel_cap
            → Step e (
                emit
                  (run reg req e.shared).0
                  (record e { inflight = before ++ after; shared = (run reg req e.shared).1 }))
        write :
            (e : Engine S R) (r : Response R) (rest : List (Response R))
            → e.outbound ≡ r ∷ rest
            → Step e (record e { outbound = rest; written = e.written ++ r ∷ [] })
        stop :
            (e : Engine S R)
            → e.reading ≡ false
            → e.inflight ≡ []
            → e.outbound ≡ []
            → e.closed ≡ false
            → Step e (record e { closed = true })

      pub data Reach (e : Engine S R) : Engine S R → Type 0 where
        here : Reach e e
        next : {f g : Engine S R} → Reach e f → Step f g → Reach e g
