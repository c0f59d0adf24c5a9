-- ===== src/Github/Client/Closed.antt =====
-- The errors of the client's calls, that they send nothing without a token, and that they keep the cache.
use differ_nvim.Common.{◌≡◌, ◌≢◌, refl, ◌∙◌, String, Option, none, some, List, ◌∷◌}
use differ_nvim.Common.Int.{ℤ}
use differ_nvim.Protocol.{
  Error, GoError, coded, Result, ok, err, IsClosed, code_internal, new_error,
}
use differ_nvim.Github.Cache.Within.{IsWithin}
use differ_nvim.Github.Errors.{map_http}
use differ_nvim.Github.Errors.Classes.{map_http-IsClosed, map_graphql-IsClosed}
use differ_nvim.Github.Client.{
  M, Session, Env, Codec, Call, Vars, Reply, failed, answered, Sent, Decoded, decoded, undecodable,
  ◌>>=◌, ◌>>◌, bind_result, pure, throw, fail_with, first_error, read_failure, classify,
  lift_decoded, check, check_go, check_url, send, fetch, get_json, graphql_data, graphql,
  graphql_nil,
}

-- An error that is a `*protocol.Error` of the closed set.
pub data ClosedError : GoError → Type 0 where
  closed : (e : Error) → IsClosed e.code → ClosedError (coded e)

-- A result that is no error, or one of the closed set.
pub data ClosedResult {A : Type 0} : Result A → Type 0 where
  fine : (a : A) → ClosedResult (ok a)
  refused : (e : GoError) → ClosedError e → ClosedResult (err e)

-- From every state the computation ends so; and where `o`, the error of the token's resolution, is one,
-- the computation sends nothing. A cache that is valid and within its limit stays so.
pub record Orderly {A : Type 0} (o : Option GoError) (m : M A) : Type 0 where
  pub at : (s : Session) → ClosedResult (m s).0
  pub silent : (s : Session) → o ≢ none → (m s).1.sent ≡ s.sent
  pub within : (s : Session) → IsWithin s.cache → IsWithin (m s).1.cache

closed_next :
    {A B : Type 0} {o : Option GoError} (r : Result A) (s : Session) (f : A → M B)
    → ClosedResult r
    → ((a : A) → Orderly o (f a))
    → ClosedResult (bind_result (r, s) f).0
closed_next (ok a) s f h k = (k a).at s
closed_next (err e) s f (refused _ h) k = refused e h

silent_next :
    {A B : Type 0} (start : List Call) (r : Result A) (s : Session) (f : A → M B)
    → s.sent ≡ start
    → ((a : A) → (f a s).1.sent ≡ s.sent)
    → (bind_result (r, s) f).1.sent ≡ start
silent_next start (ok a) s f h k = k a ∙ h
silent_next start (err e) s f h k = h

IsWithin-next :
    {A B : Type 0} (r : Result A) (s : Session) (f : A → M B)
    → IsWithin s.cache
    → ((a : A) → IsWithin (f a s).1.cache)
    → IsWithin (bind_result (r, s) f).1.cache
IsWithin-next (ok a) s f w k = k a
IsWithin-next (err e) s f w k = w

pub closed_bind :
    {A B : Type 0} {o : Option GoError} (m : M A) (f : A → M B)
    → Orderly o m
    → ((a : A) → Orderly o (f a))
    → Orderly o (m >>= f)
closed_bind m f h k = record {
  at = λ s. closed_next (m s).0 (m s).1 f (h.at s) k;
  silent =
      λ s no. silent_next s.sent (m s).0 (m s).1 f (h.silent s no) (λ a. (k a).silent (m s).1 no);
  within = λ s w.
      let after = h.within s w in
      IsWithin-next (m s).0 (m s).1 f after (λ a. (k a).within (m s).1 after);
}

pub closed_then :
    {B : Type 0} {o : Option GoError} (m : M (Unit {0})) (k : M B)
    → Orderly o m
    → Orderly o k
    → Orderly o (m >> k)
closed_then m k h g = closed_bind m (λ _. k) h (λ _. g)

pub closed_pure : {A : Type 0} {o : Option GoError} (a : A) → Orderly o (pure a)
unfolding pure
closed_pure a = record { at = λ s. fine a; silent = λ s no. refl; within = λ s w. w }

pub closed_throw :
    {A : Type 0} {o : Option GoError} (e : GoError) → ClosedError e → Orderly o (throw {A = A} e)
unfolding throw
closed_throw e h = record { at = λ s. refused e h; silent = λ s no. refl; within = λ s w. w }

pub closed_fail :
    {A : Type 0} {o : Option GoError} (code message : String)
    → IsClosed code
    → Orderly o (fail_with {A = A} code message)
unfolding fail_with
closed_fail code message h = closed_throw (coded (new_error code message)) (closed _ h)

-- An optional error that is one of the closed set.
pub data ClosedOption : Option Error → Type 0 where
  no_error : ClosedOption none
  an_error : (e : Error) → IsClosed e.code → ClosedOption (some e)

pub closed_check :
    {token_err : Option GoError} (o : Option Error) → ClosedOption o → Orderly token_err (check o)
unfolding check
closed_check none h = closed_pure tt
closed_check (some e) (an_error _ h) = closed_throw (coded e) (closed e h)

pub data ClosedGo : Option GoError → Type 0 where
  no_go_error : ClosedGo none
  a_go_error : (e : GoError) → ClosedError e → ClosedGo (some e)

-- What follows the test of the token runs only if there is one.
pub closed_after_token :
    {B : Type 0} (o : Option GoError) (k : M B)
    → ClosedGo o
    → (o ≡ none → Orderly o k)
    → Orderly o (check_go o >> k)
unfolding check_go throw
closed_after_token none k h f = closed_then _ k (closed_pure tt) (f refl)
closed_after_token (some e) k (a_go_error _ h) f = record {
  at = λ s. refused e h;
  silent = λ s no. refl;
  within = λ s w. w;
}

pub closed_check_url :
    {token_err : Option GoError} (o : Option String) → Orderly token_err (check_url o)
unfolding check_url
closed_check_url none = closed_pure tt
closed_check_url (some m) = closed_fail code_internal m (record { listed = refl })

pub closed_decoded :
    {A : Type 0} {token_err : Option GoError} (what : String) (d : Decoded A)
    → Orderly token_err (lift_decoded what d)
closed_decoded what (decoded a) = closed_pure a
closed_decoded what (undecodable m) = closed_fail code_internal _ (record { listed = refl })

first_error-closed :
    (o p : Option Error) → ClosedOption o → ClosedOption p → ClosedOption (first_error o p)
first_error-closed none p h k = k
first_error-closed (some e) p h k = h

read_failure-closed : (o : Option String) → ClosedOption (read_failure o)
read_failure-closed none = no_error
read_failure-closed (some m) = an_error _ (record { listed = refl })

option_closed : (o : Option Error) → ((e : Error) → o ≡ some e → IsClosed e.code) → ClosedOption o
option_closed none h = no_error
option_closed (some e) h = an_error e (h e refl)

classify-closed :
    (codec : Codec) (now : ℤ) (r : Reply) → ClosedOption (classify codec now r).failure
unfolding classify
classify-closed codec now (failed m) = an_error _ (record { listed = refl })
classify-closed codec now (answered resp body rerr) =
    first_error-closed (map_http now resp (codec.message body)) (read_failure rerr)
      (option_closed _ (map_http-IsClosed now resp (codec.message body))) (read_failure-closed rerr)

module _ (env : Env) where
  -- The error that `send` leaves is of the closed set, which what follows it may use.
  pub closed_bind_send :
      {B : Type 0} (call : Call) (f : Sent → M B)
      → env.token_err ≡ none
      → ((r : Sent) → ClosedOption r.failure → Orderly env.token_err (f r))
      → Orderly env.token_err (send env call >>= f)
  unfolding send
  closed_bind_send call f known k = record {
    at = λ s.
        let reply = env.network s.sent call in
        (k (classify env.codec (env.clock s.sent) reply)
            (classify-closed env.codec (env.clock s.sent) reply)).at
          (record s { sent = call ∷ s.sent });
    silent = λ s no. absurd (no known);
    within = λ s w.
        let reply = env.network s.sent call in
        (k (classify env.codec (env.clock s.sent) reply)
            (classify-closed env.codec (env.clock s.sent) reply)).within
          (record s { sent = call ∷ s.sent }) w;
  }

  pub closed_fetch : (call : Call) → env.token_err ≡ none → Orderly env.token_err (fetch env call)
  unfolding fetch
  closed_fetch call known = closed_bind_send call _ known (λ r h.
      closed_then (check r.failure) (pure r.body) (closed_check r.failure h) (closed_pure r.body))

  module _ (token : ClosedGo env.token_err) where
    pub closed_get_json :
        {A : Type 0} (decode : String → Decoded A) (raw_url : String)
        → Orderly env.token_err (get_json env decode raw_url)
    unfolding get_json
    closed_get_json decode raw_url = closed_after_token env.token_err _ token (λ known.
        closed_then _ _ (closed_check_url _)
          (closed_bind _ _ (closed_fetch _ known) (λ body. closed_decoded _ (decode body))))

    pub closed_graphql_data :
        (document : String) (vars : Vars) → Orderly env.token_err (graphql_data env document vars)
    unfolding graphql_data
    closed_graphql_data document vars = closed_after_token env.token_err _ token (λ known.
        closed_then _ _ (closed_check_url _) (
          closed_bind _ _ (closed_fetch _ known) (λ body.
            closed_bind _ _ (closed_decoded _ (env.codec.envelope body)) (λ e.
              closed_then _ _ (closed_check _ (option_closed _ (map_graphql-IsClosed e.errors)))
                (closed_pure _)))))

    pub closed_graphql :
        {A : Type 0} (decode : String → Decoded A) (document : String) (vars : Vars)
        → Orderly env.token_err (graphql env decode document vars)
    unfolding graphql
    closed_graphql decode document vars =
        closed_bind _ _ (closed_graphql_data document vars) (λ t. closed_decoded _ (decode t))

    pub closed_graphql_nil :
        (document : String) (vars : Vars) → Orderly env.token_err (graphql_nil env document vars)
    unfolding graphql_nil
    closed_graphql_nil document vars =
        closed_bind _ _ (closed_graphql_data document vars) (λ t. closed_pure tt)
