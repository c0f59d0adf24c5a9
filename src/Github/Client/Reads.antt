-- ===== src/Github/Client/Reads.antt =====
-- The calls that only read: a GET, and the POST of a GraphQL document that is no mutation.
use differ_nvim.Common.{
  ◌≡◌, refl, ◌⊎◌, inl, inr, String, Bool, true, false, not, Option, none, some, List, ◌∷◌,
}
use differ_nvim.Protocol.{Error, GoError, Result, ok, err}
use differ_nvim.Github.Documents.{is_mutation}
use differ_nvim.Github.Client.{
  M, Session, Env, Call, get, post, Vars, Decoded, decoded, undecodable, ◌>>=◌, ◌>>◌, bind_result,
  pure, throw, fail_with, lift_decoded, check, check_go, check_url, send, fetch, get_json,
  graphql_data, graphql,
}

unfoldable pub is_read : Call → Bool
is_read (get url media) = true
is_read (post document vars) = not (is_mutation document)

-- The calls `later` are those of `earlier` and some reads after them.
pub data ReadsAfter (earlier : List Call) : List Call → Type 0 where
  same : ReadsAfter earlier earlier
  more :
      (c : Call) (later : List Call)
      → is_read c ≡ true
      → ReadsAfter earlier later
      → ReadsAfter earlier (c ∷ later)

pub reads_trans : (a b c : List Call) → ReadsAfter a b → ReadsAfter b c → ReadsAfter a c
reads_trans a b _ h same = h
reads_trans a b _ h (more c l r t) = more c l r (reads_trans a b l h t)

-- From every state the computation only reads.
pub record ReadsOnly {A : Type 0} (m : M A) : Type 0 where
  pub at : (s : Session) → ReadsAfter s.sent (m s).1.sent

reads_next :
    {A B : Type 0} (start : List Call) (r : Result A) (s : Session) (f : A → M B)
    → ReadsAfter start s.sent
    → ((a : A) → ReadsOnly (f a))
    → ReadsAfter start (bind_result (r, s) f).1.sent
reads_next start (ok a) s f h k = reads_trans start s.sent _ h ((k a).at s)
reads_next start (err e) s f h k = h

pub reads_bind :
    {A B : Type 0} (m : M A) (f : A → M B)
    → ReadsOnly m
    → ((a : A) → ReadsOnly (f a))
    → ReadsOnly (m >>= f)
reads_bind m f h k = record { at = λ s. reads_next s.sent (m s).0 (m s).1 f (h.at s) k }

pub reads_then :
    {B : Type 0} (m : M (Unit {0})) (k : M B) → ReadsOnly m → ReadsOnly k → ReadsOnly (m >> k)
reads_then m k h g = reads_bind m (λ _. k) h (λ _. g)

pub reads_pure : {A : Type 0} (a : A) → ReadsOnly (pure a)
unfolding pure
reads_pure a = record { at = λ s. same }

pub reads_throw : {A : Type 0} (e : GoError) → ReadsOnly (throw {A = A} e)
unfolding throw
reads_throw e = record { at = λ s. same }

pub reads_fail : {A : Type 0} (code message : String) → ReadsOnly (fail_with {A = A} code message)
unfolding fail_with
reads_fail code message = reads_throw _

pub reads_check : (o : Option Error) → ReadsOnly (check o)
unfolding check
reads_check none = reads_pure tt
reads_check (some e) = reads_throw _

pub reads_check_go : (o : Option GoError) → ReadsOnly (check_go o)
unfolding check_go
reads_check_go none = reads_pure tt
reads_check_go (some e) = reads_throw e

pub reads_check_url : (o : Option String) → ReadsOnly (check_url o)
unfolding check_url
reads_check_url none = reads_pure tt
reads_check_url (some m) = reads_fail _ m

pub reads_decoded : {A : Type 0} (what : String) (d : Decoded A) → ReadsOnly (lift_decoded what d)
reads_decoded what (decoded a) = reads_pure a
reads_decoded what (undecodable m) = reads_fail _ _

module _ (env : Env) where
  pub reads_send : (c : Call) → is_read c ≡ true → ReadsOnly (send env c)
  unfolding send
  reads_send c h = record { at = λ s. more c s.sent h same }

  pub reads_fetch : (c : Call) → is_read c ≡ true → ReadsOnly (fetch env c)
  unfolding fetch
  reads_fetch c h =
      reads_bind (send env c) _ (reads_send c h) (λ r.
        reads_then (check r.failure) (pure r.body) (reads_check r.failure) (reads_pure r.body))

  pub reads_get_json :
      {A : Type 0} (decode : String → Decoded A) (url : String)
      → ReadsOnly (get_json env decode url)
  unfolding get_json is_read
  reads_get_json decode url = reads_then _ _ (reads_check_go env.token_err) (
      reads_then _ _ (reads_check_url _)
        (reads_bind _ _ (reads_fetch _ refl) (λ body. reads_decoded _ (decode body))))

  pub reads_graphql :
      {A : Type 0} (decode : String → Decoded A) (document : String) (vars : Vars)
      → is_mutation document ≡ false
      → ReadsOnly (graphql env decode document vars)
  unfolding graphql graphql_data is_read
  reads_graphql decode document vars h =
      reads_bind _ _
        (reads_then _ _ (reads_check_go env.token_err) (
          reads_then _ _ (reads_check_url _) (
            reads_bind _ _ (reads_fetch (post document vars) (rw h)) (λ body.
              reads_bind _ _ (reads_decoded _ (env.codec.envelope body))
                (λ e. reads_then _ _ (reads_check _) (reads_pure _))))))
        (λ t. reads_decoded _ (decode t))

reads_either :
    {A B : Type 0} (P : Type 0) (start : List Call) (r : Result A × Session) (f : A → M B)
    → ReadsAfter start r.1.sent
    → ((a : A) (t : Session) → r ≡ (ok a, t) → P ⊎ ReadsAfter t.sent (f a t).1.sent)
    → P ⊎ ReadsAfter start (bind_result r f).1.sent
reads_either P start (err e, t) f reads k = inr reads
reads_either P start (ok a, t) f reads k = elim (k a t refl) [
  | inl p ↦ inl p
  | inr more_reads ↦ inr (reads_trans start t.sent _ reads more_reads)
]

-- A computation that is known only to read unless `P` holds: the first half reads, and what follows
-- is judged at the answer of the first half.
pub reads_unless :
    {A B : Type 0} (P : Type 0) (m : M A) (f : A → M B) (s : Session)
    → ReadsOnly m
    → ((a : A) (t : Session) → m s ≡ (ok a, t) → P ⊎ ReadsAfter t.sent (f a t).1.sent)
    → P ⊎ ReadsAfter s.sent ((m >>= f) s).1.sent
reads_unless P m f s h k = reads_either P s.sent (m s) f (h.at s) k

-- A check that fails sends nothing more.
pub reads_unless_none :
    {B : Type 0} (o : Option Error) (k : M B) (s : Session)
    → (o ≡ none) ⊎ ReadsAfter s.sent ((check o >> k) s).1.sent
unfolding check throw
reads_unless_none none k s = inl refl
reads_unless_none (some e) k s = inr same
