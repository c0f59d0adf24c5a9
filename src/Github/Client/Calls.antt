-- ===== src/Github/Client/Calls.antt =====
-- How many calls a computation of the client makes, when all of them are reads.
use differ_nvim.Common.{
  ◌≡◌, refl, ℕ, ◌+◌, ◌≤◌, String, true, false, Option, none, some, List, length, arith,
}
use differ_nvim.Protocol.{Error, GoError, Result, ok, err}
use differ_nvim.Github.Documents.{is_mutation}
use differ_nvim.Github.Client.{
  M, Session, Env, Call, post, Vars, Decoded, decoded, undecodable, ◌>>=◌, bind_result, pure, throw,
  fail_with, lift_decoded, check, check_go, check_url, send, fetch, get_json, graphql_data, graphql,
}
use differ_nvim.Github.Client.Reads.{ReadsAfter, same, more, is_read, reads_trans}

-- From every state the computation only reads, and makes `n` calls at most.
pub record ReadsAtMost {A : Type 0} (n : ℕ) (m : M A) : Type 0 where
  pub reads : (s : Session) → ReadsAfter s.sent (m s).1.sent
  pub few : (s : Session) → length (m s).1.sent ≤ length s.sent + n

module _ {B : Type 0} where
  next_reads :
      {A : Type 0} (start : List Call) (r : Result A) (s : Session) (f : A → M B)
      → ReadsAfter start s.sent
      → ((a : A) → ReadsAfter s.sent (f a s).1.sent)
      → ReadsAfter start (bind_result (r, s) f).1.sent
  next_reads start (ok a) s f h k = reads_trans start s.sent _ h (k a)
  next_reads start (err e) s f h k = h

  next_few :
      {A : Type 0} (i j n : ℕ) (r : Result A) (s : Session) (f : A → M B)
      → length s.sent ≤ i + j
      → ((a : A) → length (f a s).1.sent ≤ length s.sent + n)
      → length (bind_result (r, s) f).1.sent ≤ i + (j + n)
  next_few i j n (ok a) s f h k = omega (arith, k a)
  next_few i j n (err e) s f h k = omega (arith, h)

pub bounded_bind :
    {A B : Type 0} (i j : ℕ) (m : M A) (f : A → M B)
    → ReadsAtMost i m
    → ((a : A) → ReadsAtMost j (f a))
    → ReadsAtMost (i + j) (m >>= f)
bounded_bind i j m f h k = record {
  reads = λ s. next_reads s.sent (m s).0 (m s).1 f (h.reads s) (λ a. (k a).reads (m s).1);
  few = λ s. next_few (length s.sent) i j (m s).0 (m s).1 f (h.few s) (λ a. (k a).few (m s).1);
}

pub bounded_le : {A : Type 0} (i j : ℕ) (m : M A) → i ≤ j → ReadsAtMost i m → ReadsAtMost j m
bounded_le i j m le h = record { reads = h.reads; few = λ s. omega (arith, h.few s) }

-- Nothing is sent before, and `n` calls at most after.
pub bounded_after :
    {A B : Type 0} (n : ℕ) (m : M A) (f : A → M B)
    → ReadsAtMost 0 m
    → ((a : A) → ReadsAtMost n (f a))
    → ReadsAtMost n (m >>= f)
bounded_after n m f h k = bounded_le _ n _ (omega arith) (bounded_bind 0 n m f h k)

pub bounded_pure : {A : Type 0} (a : A) → ReadsAtMost 0 (pure a)
unfolding pure
bounded_pure a = record { reads = λ s. same; few = λ s. omega arith }

pub bounded_throw : {A : Type 0} (e : GoError) → ReadsAtMost 0 (throw {A = A} e)
unfolding throw
bounded_throw e = record { reads = λ s. same; few = λ s. omega arith }

pub bounded_fail :
    {A : Type 0} (code message : String) → ReadsAtMost 0 (fail_with {A = A} code message)
unfolding fail_with
bounded_fail code message = bounded_throw _

pub bounded_check : (o : Option Error) → ReadsAtMost 0 (check o)
unfolding check
bounded_check none = bounded_pure tt
bounded_check (some e) = bounded_throw _

pub bounded_check_go : (o : Option GoError) → ReadsAtMost 0 (check_go o)
unfolding check_go
bounded_check_go none = bounded_pure tt
bounded_check_go (some e) = bounded_throw e

pub bounded_check_url : (o : Option String) → ReadsAtMost 0 (check_url o)
unfolding check_url
bounded_check_url none = bounded_pure tt
bounded_check_url (some m) = bounded_fail _ m

pub bounded_decoded :
    {A : Type 0} (what : String) (d : Decoded A) → ReadsAtMost 0 (lift_decoded what d)
bounded_decoded what (decoded a) = bounded_pure a
bounded_decoded what (undecodable m) = bounded_fail _ _

module _ (env : Env) where
  pub bounded_send : (c : Call) → is_read c ≡ true → ReadsAtMost 1 (send env c)
  unfolding send
  bounded_send c h = record { reads = λ s. more c s.sent h same; few = λ s. omega arith }

  bounded_fetch : (c : Call) → is_read c ≡ true → ReadsAtMost 1 (fetch env c)
  unfolding fetch
  bounded_fetch c h =
      bounded_bind 1 0 _ _ (bounded_send c h)
        (λ r. bounded_after 0 _ _ (bounded_check r.failure) (λ _. bounded_pure r.body))

  pub bounded_get_json :
      {A : Type 0} (decode : String → Decoded A) (url : String)
      → ReadsAtMost 1 (get_json env decode url)
  unfolding get_json is_read
  bounded_get_json decode url = bounded_after 1 _ _ (bounded_check_go env.token_err) (λ _.
      bounded_after 1 _ _ (bounded_check_url _) (λ _.
        bounded_bind 1 0 _ _ (bounded_fetch _ refl) (λ body. bounded_decoded _ (decode body))))

  pub bounded_graphql :
      {A : Type 0} (decode : String → Decoded A) (document : String) (vars : Vars)
      → is_mutation document ≡ false
      → ReadsAtMost 1 (graphql env decode document vars)
  unfolding graphql graphql_data is_read
  bounded_graphql decode document vars h =
      bounded_bind 1 0 _ _
        (bounded_after 1 _ _ (bounded_check_go env.token_err) (λ _.
          bounded_after 1 _ _ (bounded_check_url _) (λ _.
            bounded_bind 1 0 _ _ (bounded_fetch (post document vars) (rw h)) (λ body.
              bounded_after 0 _ _ (bounded_decoded _ (env.codec.envelope body))
                (λ e. bounded_after 0 _ _ (bounded_check _) (λ _. bounded_pure _))))))
        (λ t. bounded_decoded _ (decode t))
