-- ===== src/Sidecar/Before.antt =====
-- cmd/differ-sidecar: the sidecar before its handshake.
use differ_nvim.Common.{◌≡◌, refl, ◌∙◌, subst, if_both, ℕ, String, false, Option, some, List, ◌==◌}
use differ_nvim.Common.Int.{ℤ, pos, ltb_ℤ}
use differ_nvim.Protocol.{Request, version, GoError, Result, ok, err}
use differ_nvim.Github.Auth.{Host, resolve_token, error_of}
use differ_nvim.Github.Client.{
  M, ◌>>=◌, Session, pure, fail_with, throw, Decoded, decoded, undecodable, bind_result,
}
use differ_nvim.Handlers.{decode, decoded_params}
use differ_nvim.Handlers.Methods.{
  Answer, hello_result, Deps, decoded_then, method, read_methods, new_registry,
}
use differ_nvim.Handlers.Reads.{HelloParams, hello}
use differ_nvim.Server.Run.{Handler}
use differ_nvim.Server.Session.{Engine, Reach}
use differ_nvim.Server.Session.Before.{reach_before}
use differ_nvim.Sidecar.{sidecar, new_client, main_engine, fresh_client}

-- A computation that leaves the state.
record IsIdle {A : Type 0} (m : M A) : Type 0 where
  at : (s : Session) → (m s).1 ≡ s

IsIdle-next :
    {A B : Type 0} (r : Result A) (s t : Session) (f : A → M B)
    → s ≡ t
    → ((a : A) → IsIdle (f a))
    → (bind_result (r, s) f).1 ≡ t
IsIdle-next (ok a) s t f e k = (k a).at s ∙ e
IsIdle-next (err x) s t f e k = e

IsIdle-bind :
    {A B : Type 0} (m : M A) (f : A → M B) → IsIdle m → ((a : A) → IsIdle (f a)) → IsIdle (m >>= f)
IsIdle-bind m f h k = record { at = λ s. IsIdle-next (m s).0 (m s).1 s f (h.at s) k }

decoded_params-IsIdle : {A : Type 0} (d : Decoded A) → IsIdle (decoded_params d)
unfolding pure fail_with throw
decoded_params-IsIdle (decoded a) = record { at = λ s. refl }
decoded_params-IsIdle (undecodable m) = record { at = λ s. refl }

decode-IsIdle :
    {A : Type 0} (unmarshal : String → Decoded A) (zero_value : A) (params : String)
    → IsIdle (decode unmarshal zero_value params)
unfolding decode pure
decode-IsIdle unmarshal zero_value params =
    if_both IsIdle (params == "") _ _ (record { at = λ s. refl })
      (decoded_params-IsIdle (unmarshal params))

hello-IsIdle :
    (itoa : ℤ → String) (binary : String) (surface : Option (Option GoError)) (p : HelloParams)
    → IsIdle (hello itoa binary surface p)
unfolding hello pure fail_with throw
hello-IsIdle itoa binary surface p =
    if_both IsIdle (ltb_ℤ version p.protocol) _ _ (record { at = λ s. refl })
      (record { at = λ s. refl })

decoded_then-IsIdle :
    {P A : Type 0} (wrap : A → Answer) (unmarshal : String → Decoded P) (zero_value : P)
    (work : P → M A) (params : String)
    → ((p : P) → IsIdle (work p))
    → IsIdle (decoded_then wrap unmarshal zero_value work params)
unfolding decoded_then pure
decoded_then-IsIdle wrap unmarshal zero_value work params h =
    IsIdle-bind _ _ (decode-IsIdle unmarshal zero_value params)
      (λ p. IsIdle-bind _ _ (h p) (λ a. record { at = λ s. refl }))

abbrev hello_method : Host → Deps → Handler Session Answer
hello_method host d =
    method hello_result d.codec.hello (record { client = ""; protocol = pos 0 })
      (hello d.gh.itoa d.binary (some (error_of (resolve_token host))))

hello_keeps :
    (host : Host) (d : Deps) (h : Handler Session Answer)
    → sidecar host d "hello" ≡ some h
    → (params : String) (s : Session) → s ≡ fresh_client
    → (h params s).1 ≡ fresh_client
unfolding sidecar new_client new_registry read_methods method
hello_keeps host d h known params s e =
    let same : hello_method host d ≡ h = cc known in
    subst (λ (k : Handler Session Answer). (k params s).1 ≡ fresh_client) same
      ((decoded_then-IsIdle _ d.codec.hello _ _ params (hello-IsIdle _ _ _)).at s ∙ e)

-- Until a `hello` has succeeded the client is as `New` made it: GitHub was not called, no viewer is
-- known and the cache is empty, whatever was asked and in whatever order the steps came.
pub sidecar_before_hello :
    (host : Host) (d : Deps) (decode_request : List ℕ → Option Request) (input : List ℕ)
    {e : Engine Session Answer}
    → Reach (sidecar host d) decode_request (main_engine input) e
    → e.hello_ok ≡ false
    → e.shared ≡ fresh_client
unfolding main_engine
sidecar_before_hello host d decode_request input r waiting =
    reach_before (λ (s : Session). s ≡ fresh_client) (sidecar host d) (hello_keeps host d)
      decode_request _ input refl r waiting
