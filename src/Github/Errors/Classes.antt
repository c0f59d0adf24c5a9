-- ===== src/Github/Errors/Classes.antt =====
-- Which answers are errors, and of which class.
use differ_nvim.Common.{
  map, ℕ, ◌≤◌, ◌<◌, ◌≡◌, ◌↔◌, refl, String, Bool, true, false, ◌||◌, ◌&&◌, Option, none, some, List,
  [], ◌∷◌, arith, eqb, if◌then◌else◌, ◌==◌, Bool-cases, Option-cases, inl, inr, if_both, sym, subst,
}
use differ_nvim.Common.Text.{codes, contains, lower}
use differ_nvim.Common.Int.{ℤ, pos}
use differ_nvim.Protocol.{
  Error, IsClosed, new_error, rate_limited, code_auth, code_not_found, code_rate_limited,
  code_conflict, code_bad_request, code_internal,
}
use differ_nvim.Github.Errors.{
  atoi, budget_spent, HttpResponse, rate_limit, secondary_limit, github_message, forbidden, limited,
  map_http, GqlError, graphql_error, map_graphql, refused, limit, denied,
}

-- A 2xx response, and no other, is no error.
pub map_http-none_iff :
    (now : ℤ) (resp : HttpResponse) (body : Option String)
    → (map_http now resp body ≡ none) ↔ ((200 ≤ resp.status_code) × (resp.status_code < 300))
unfolding map_http
map_http-none_iff now resp body = (λ h. ground arith, λ h. ground arith)

abbrev pub is_some {ℓ} : {A : Type ℓ} → Option A → Bool
is_some none = false
is_some (some _) = true

-- A message that has a phrase, in any case of the letters.
abbrev pub mentions : String → String → Bool
mentions msg phrase = contains (map lower (codes msg)) (codes phrase)

-- A response that GitHub limits: status 429; or 403 with a whole number of seconds in `Retry-After`, with
-- a budget that is spent, or with a message of the secondary limit.
unfoldable pub is_limited : HttpResponse → String → Bool
is_limited resp msg =
    eqb resp.status_code 429
    || (eqb resp.status_code 403
        && (is_some (atoi (resp.header "Retry-After"))
            || (resp.header "X-RateLimit-Remaining" == "0")
            || mentions msg "secondary rate limit"
            || mentions msg "abuse detection"))

-- The message that a body gives: its own, where it is JSON and has one, and else the status line.
pub data Worded (status : String) : Option String → String → Type 0 where
  unread : Worded status none status
  blank : (m : String) → (m == "") ≡ true → Worded status (some m) status
  own : (m : String) → (m == "") ≡ false → Worded status (some m) m

github_message-Worded :
    (status : String) (body : Option String) → Worded status body (github_message body status)
unfolding github_message
github_message-Worded status none = unread
github_message-Worded status (some m) = elim (Bool-cases (m == "")) [
  | inl e ↦ rw e (blank m e)
  | inr e ↦ rw e (own m e)
]

rate_limit-some :
    (now : ℤ) (resp : HttpResponse)
    → is_some (rate_limit now resp)
      ≡ (is_some (atoi (resp.header "Retry-After")) || (resp.header "X-RateLimit-Remaining" == "0"))
unfolding rate_limit budget_spent
rate_limit-some now resp = elim (Option-cases (atoi (resp.header "Retry-After"))) [
  | inr (n, given) ↦ rw (given, rate_limit) refl
  | inl free ↦ elim (Bool-cases (resp.header "X-RateLimit-Remaining" == "0")) [
    | inl spent ↦ rw (free, rate_limit, spent) refl
    | inr left ↦ rw (free, rate_limit, left) refl
  ]
]

secondary_limit-mentions :
    (msg : String)
    → secondary_limit msg ≡ (mentions msg "secondary rate limit" || mentions msg "abuse detection")
unfolding secondary_limit
secondary_limit-mentions msg = refl

-- The class of the statuses that are no limit.
unfoldable pub status_class : ℕ → String
status_class s =
    if eqb s 401 || eqb s 403
    then code_auth
    else if eqb s 404
    then code_not_found
    else if eqb s 409
    then code_conflict
    else if eqb s 422
    then code_bad_request
    else code_internal

forbidden_class :
    (now : ℤ) (resp : HttpResponse) (msg : String)
    → ((forbidden now resp msg).code ≡ (
        if is_some (rate_limit now resp) || secondary_limit msg
        then code_rate_limited
        else code_auth))
      × ((forbidden now resp msg).message ≡ msg)
unfolding forbidden
forbidden_class now resp msg = elim (Option-cases (rate_limit now resp)) [
  | inl free ↦ elim (Bool-cases (secondary_limit msg)) [
    | inl second ↦ rw (free, forbidden, second) (refl, refl)
    | inr denied ↦ rw (free, forbidden, denied) (refl, refl)
  ]
  | inr (n, spent) ↦ rw (spent, forbidden) (refl, refl)
]

limited_class :
    (msg : String) (o : Option ℤ)
    → ((limited msg o).code ≡ code_rate_limited) × ((limited msg o).message ≡ msg)
limited_class msg none = (refl, refl)
limited_class msg (some n) = (refl, refl)

-- An error response has the code `rate_limited` if GitHub limits, by its status, its headers or its
-- message, and else the class of its status; it carries GitHub's own message where the body has one, and
-- else the status line.
pub map_http-code :
    (now : ℤ) (resp : HttpResponse) (body : Option String) (e : Error)
    → map_http now resp body ≡ some e
    → (e.code
        ≡ (if is_limited resp e.message then code_rate_limited else status_class resp.status_code))
      × Worded resp.status body e.message
unfolding map_http is_limited status_class
map_http-code now resp body e h =
    let msg = github_message body resp.status in
    let f = forbidden_class now resp msg in
    let l = limited_class msg (rate_limit now resp) in
    let spent = rate_limit-some now resp in
    let second = secondary_limit-mentions msg in
    let text : e.message ≡ msg = ground arith in
    (
      rw text (ground arith),
      subst (Worded resp.status body) (sym text) (github_message-Worded resp.status body),
    )

-- The conditional of two codes of the closed set is one.
abbrev closed_if :
    (b : Bool) (x y : String) → IsClosed x → IsClosed y → IsClosed (if b then x else y)
closed_if = if_both IsClosed

status_class-IsClosed : (s : ℕ) → IsClosed (status_class s)
unfolding status_class
status_class-IsClosed s =
    closed_if (eqb s 401 || eqb s 403) code_auth _ (record { listed = refl })
      (closed_if (eqb s 404) code_not_found _ (record { listed = refl })
        (closed_if (eqb s 409) code_conflict _ (record { listed = refl })
          (closed_if (eqb s 422) code_bad_request code_internal (record { listed = refl })
            (record { listed = refl }))))

pub map_http-IsClosed :
    (now : ℤ) (resp : HttpResponse) (body : Option String) (e : Error)
    → map_http now resp body ≡ some e
    → IsClosed e.code
map_http-IsClosed now resp body e h = subst IsClosed (sym (map_http-code now resp body e h).0) (
    closed_if (is_limited resp e.message) code_rate_limited _ (record { listed = refl })
      (status_class-IsClosed resp.status_code))

closed_error :
    (b : Bool) (x y : Error)
    → IsClosed x.code
    → IsClosed y.code
    → IsClosed (if b then x else y).code
closed_error = if_both (λ e. IsClosed e.code)

graphql_error-IsClosed : (type msg : String) → IsClosed (graphql_error type msg).code
unfolding graphql_error
graphql_error-IsClosed type msg =
    closed_error (type == "NOT_FOUND") (new_error code_not_found msg) (denied type msg)
      (record { listed = refl })
      (closed_error (type == "FORBIDDEN" || type == "INSUFFICIENT_SCOPES") (new_error code_auth msg)
        (limit type msg) (record { listed = refl })
        (closed_error (type == "RATE_LIMITED") (rate_limited msg (pos 0)) (refused type msg)
          (record { listed = refl })
          (closed_error (type == "UNPROCESSABLE") (new_error code_bad_request msg)
            (new_error code_internal msg) (record { listed = refl }) (record { listed = refl }))))

-- The error of a GraphQL response with errors has a code of the closed set, whatever their type is.
pub map_graphql-IsClosed :
    (errs : List GqlError) (e : Error) → map_graphql errs ≡ some e → IsClosed e.code
unfolding map_graphql
map_graphql-IsClosed [] e h = cc
map_graphql-IsClosed (d ∷ ds) e h =
    let msg = if d.message == "" then "graphql error" else d.message in
    let same : graphql_error d.type msg ≡ e = cc h in
    subst (λ (x : Error). IsClosed x.code) same (graphql_error-IsClosed d.type msg)
