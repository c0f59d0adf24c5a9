-- ===== src/Github/Client/Runs.antt =====
-- What a run of a computation of the client that ends well came through.
use differ_nvim.Common.{◌≡◌, refl, String, false, ◌==◌, Bool-cases, inl, inr}
use differ_nvim.Protocol.{Result, ok, err}
use differ_nvim.Github.Client.{M, Session, bind_result, pure, fail_with, throw}
use differ_nvim.Github.Reviews.{require}

-- The first part of a bind ended well, and the second one from there.
pub record Through {A B : Type 0} (r : Result A × Session) (f : A → M B) (b : B) (u : Session)
    : Type 0 where
  pub value : A
  pub state : Session
  pub first : r ≡ (ok value, state)
  pub second : f value state ≡ (ok b, u)

Through-result :
    {A B : Type 0} (r : Result A × Session) (f : A → M B) (b : B) (u : Session)
    → bind_result r f ≡ (ok b, u)
    → Through r f b u
Through-result (ok a, s) f b u h = record { value = a; state = s; first = refl; second = h }
Through-result (err e, s) f b u h = cc h

pub through :
    {A B : Type 0} (m : M A) (s : Session) (f : A → M B) (b : B) (u : Session)
    → bind_result (m s) f ≡ (ok b, u)
    → Through (m s) f b u
through m s f b u h = Through-result (m s) f b u h

-- A `require` that ended well found the id, and left the state.
pub required :
    (id code message : String) (x : Unit {0}) (s u : Session)
    → require id code message s ≡ (ok x, u)
    → ((id == "") ≡ false) × (s ≡ u)
unfolding pure fail_with throw
required id code message x s u h = elim (Bool-cases (id == "")) [
  | inl e ↦ let bad = rw e at h in cc bad
  | inr e ↦ let good = rw e at h in (e, cc good)
]
