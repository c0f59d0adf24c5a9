-- ===== src/Plugin/Served.antt =====
-- lua/differ/sidecar/init.lua and internal/server: the frames of the client, in the server that it
-- started. `vim.json.encode` of a frame, and `json.Unmarshal` of its line, are parameters.
use differ_nvim.Common.{
  ℕ, String, ◌≡◌, refl, ap, ◌∙◌, sym, subst, true, false, ◌||◌, Option, some, List, [], ◌∷◌, ◌++◌,
  map, append_assoc, append-nil, drop, ◌==◌,
}
use differ_nvim.Common.Int.{pos}
use differ_nvim.Protocol.{Request, Response}
use differ_nvim.Server.Run.{Registry, is_ok, run}
use differ_nvim.Server.Session.{
  Engine, start, emit, greet, admit, dispatch, take_request, take_line,
}
use differ_nvim.Handlers.{decode}
use differ_nvim.Handlers.Reads.{HelloParams, hello, greeting}
use differ_nvim.Handlers.Methods.{Answer, Deps, new_registry, read_methods, method, decoded_then}
use differ_nvim.Github.Auth.{Host}
use differ_nvim.Github.Client.{Session, pure, decoded}
use differ_nvim.Sidecar.{sidecar, new_client, main_engine}
use differ_nvim.Plugin.Events.{Event, history, at_load}
use differ_nvim.Plugin.Frames.Run.{frames-greet_first}
use differ_nvim.Plugin.State.{hello_params, Params, Outgoing, Client, Json, Shell}
use differ_nvim.Plugin.Client.{protocol, hello_frame}

-- The request that a frame is to the server; the parameters are raw JSON.
abbrev pub asked : (Params → String) → Outgoing → Request
asked texts f = record { id = pos f.id; method = f.method; params = texts f.params }

-- Each of some frames is encoded as a line that is not empty, and is decoded again as what it was.
abbrev pub AreEncoded :
    (List ℕ → Option Request) → (Outgoing → List ℕ) → (Params → String) → List Outgoing → Type 0
AreEncoded decode_request encode texts [] = Unit
AreEncoded decode_request encode texts (f ∷ fs) =
    ((b : ℕ) × (line : List ℕ) × (encode f ≡ b ∷ line)
      × (decode_request (b ∷ line) ≡ some (asked texts f)))
    × AreEncoded decode_request encode texts fs

-- Frames with any other method than `hello`.
abbrev pub AreCalls : List Outgoing → Type 0
AreCalls [] = Unit
AreCalls (f ∷ fs) = ((f.method == "hello") ≡ false) × AreCalls fs

module _ {S R : Type 0} (reg : Registry S R) where
  -- The lines of frames, as the server takes them one after the other.
  unfoldable pub served :
      (List ℕ → Option Request) → (Outgoing → List ℕ) → List Outgoing → Engine S R → Engine S R
  served decode_request encode [] e = e
  served decode_request encode (f ∷ fs) e =
      served decode_request encode fs (take_line reg decode_request (encode f) e)

  module _ (decode_request : List ℕ → Option Request) (encode : Outgoing → List ℕ)
      (texts : Params → String) where
    abbrev IsEncoded : Outgoing → Type 0
    IsEncoded f =
        (b : ℕ) × (line : List ℕ) × (encode f ≡ b ∷ line)
        × (decode_request (b ∷ line) ≡ some (asked texts f))

    take_line-encoded :
        (f : Outgoing) (e : Engine S R)
        → IsEncoded f
        → take_line reg decode_request (encode f) e ≡ dispatch reg (asked texts f) e
    unfolding take_line take_request
    take_line-encoded f e (b, line, there, back) = rw (there, back) refl

    dispatch-call :
        (f : Outgoing) (e : Engine S R)
        → (f.method == "hello") ≡ false
        → e.hello_ok ≡ true
        → dispatch reg (asked texts f) e ≡ record e { inflight = e.inflight ++ asked texts f ∷ [] }
    unfolding dispatch admit
    dispatch-call f e other ok = simp (other, ok) refl

    -- Once it was greeted, the server admits every call, in order.
    served-calls :
        (fs : List Outgoing) (e : Engine S R)
        → AreEncoded decode_request encode texts fs
        → AreCalls fs
        → e.hello_ok ≡ true
        → served decode_request encode fs e
          ≡ record e { inflight = e.inflight ++ map (asked texts) fs }
    unfolding served
    served-calls [] e lines are ok =
        ap (λ l. record e { inflight = l }) (sym (append-nil e.inflight))
    served-calls (f ∷ fs) e (line, lines) (other, are) ok =
        let next = record e { inflight = e.inflight ++ asked texts f ∷ [] } in
        ap (served decode_request encode fs)
          (take_line-encoded f e line ∙ dispatch-call f e other ok)
        ∙ served-calls fs next lines are ok
        ∙ ap (λ l. record e { inflight = l })
            (append_assoc e.inflight (asked texts f ∷ []) (map (asked texts) fs))

    -- A handshake that is answered with success opens the gate for all that follows.
    pub served-greeted :
        (id : ℕ) (rest : List Outgoing) (e : Engine S R)
        → AreEncoded decode_request encode texts (hello_frame id ∷ rest)
        → AreCalls rest
        → is_ok (run reg (asked texts (hello_frame id)) e.shared).0 ≡ true
        → let answer = run reg (asked texts (hello_frame id)) e.shared in
          ((served decode_request encode (hello_frame id ∷ rest) e).inflight
            ≡ e.inflight ++ map (asked texts) rest)
          × ((served decode_request encode (hello_frame id ∷ rest) e).outbound
              ≡ e.outbound ++ answer.0 ∷ [])
    unfolding served greet emit dispatch
    served-greeted id rest e (line, lines) are ok =
        let hello = asked texts (hello_frame id) in
        let next = greet (run reg hello e.shared) e in
        let welcome : next.hello_ok ≡ true = ap (λ b. b || e.hello_ok) ok in
        let all =
          ap (served decode_request encode rest) (take_line-encoded (hello_frame id) e line)
          ∙ served-calls rest next lines are welcome in
        (ap (λ x. x.inflight) all, ap (λ x. x.outbound) all)

-- The sidecar of this repository, as `main` builds it.
module _ (host : Host) (d : Deps) (texts : Params → String) where
  abbrev plugin_client : HelloParams
  plugin_client = record { client = "differ.nvim"; protocol = protocol }

  hello-welcomes :
      (id : ℕ) (s : Session)
      → (texts (hello_params "differ.nvim" protocol) == "") ≡ false
      → d.codec.hello (texts (hello_params "differ.nvim" protocol)) ≡ decoded plugin_client
      → is_ok (run (sidecar host d) (asked texts (hello_frame id)) s).0 ≡ true
  unfolding run sidecar new_client new_registry read_methods method decoded_then decode hello
      greeting pure
  hello-welcomes id s given parsed = rw (given, parsed) refl

  -- A process of the plugin's client runs this sidecar, with any token, state and build: its `main` gets
  -- the lines that a history of the module wrote to the process, each encoded so that it is decoded as
  -- what it was, the parameters of the handshake too. If the client's calls are not themselves named
  -- `hello`, the gate refuses none of them: the server starts the handler of each in the order in which
  -- they were written, and answers nothing on the way but the handshake, with success.
  pub plugin-admitted :
      (json : Json) (es : List Event) (c : Client) (sh : Shell) (frames : List Outgoing)
      (decode_request : List ℕ → Option Request) (encode : Outgoing → List ℕ) (input : List ℕ)
      → AreEncoded decode_request encode texts frames
      → (texts (hello_params "differ.nvim" protocol) == "") ≡ false
      → d.codec.hello (texts (hello_params "differ.nvim" protocol)) ≡ decoded plugin_client
      → history json es at_load ≡ (some c, sh)
      → c.proc ≡ some frames
      → AreCalls (drop 1 frames)
      → ((served (sidecar host d) decode_request encode frames (main_engine input)).inflight
          ≡ map (asked texts) (drop 1 frames))
        × ((answer : Response Answer) × ((served
                (sidecar host d)
                decode_request
                encode
                frames
                (main_engine input)).outbound
              ≡ answer ∷ [])
            × (is_ok answer ≡ true))
  unfolding main_engine start
  plugin-admitted json es c sh frames decode_request encode input faithful given parsed reached
        there are =
      let (id, rest, written, rising, quiet) =
        frames-greet_first json es c sh frames reached there in
      let calls : AreCalls rest = subst (λ fs. AreCalls (drop 1 fs)) written are in
      let lines = subst (AreEncoded decode_request encode texts) written faithful in
      let e = main_engine input in
      let ok = hello-welcomes id e.shared given parsed in
      let all =
        served-greeted (sidecar host d) decode_request encode texts id rest e lines calls ok in
      rw written
        (all.0, ((run (sidecar host d) (asked texts (hello_frame id)) e.shared).0, all.1, ok))
