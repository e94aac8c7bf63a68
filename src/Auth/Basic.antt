-- ===== src/Auth/Basic.antt =====
-- server/internal/auth/auth.go: the Authenticator. The repository's `AuthenticateUser` are
-- parameters.
use agents_management.Prelude.{
  ℕ, false, Option, none, some, [], ◌∷◌, ◌++◌, ◌≡◌, refl, arith, Text, codes, to_lower, trim,
  has_prefix, is_nil, cut, not, exists, ◌==◌, drop, reject_if, Result, ok, err, ◌>>=◌, ◌>>◌,
}
use agents_management.Storage.Model.{User}
use agents_management.Auth.{Principal, new_principal}

pub data AuthError : Type 0 where
  missing_credentials missing_header unsupported_scheme bad_base64 bad_payload : AuthError
  invalid_credentials storage_error : AuthError

-- What `UserRepository.AuthenticateUser` returns: a user, sql.ErrNoRows, or another error.
pub data UserLookup : Type 0 where
  found : User → UserLookup
  no_user : UserLookup
  no_rows : UserLookup
  failed : UserLookup

abbrev pub Users : Type 0
Users = Text → Text → UserLookup

principal_of : UserLookup → Result AuthError (Option Principal)
principal_of (found user) = ok (some (new_principal user.username user.roles))
principal_of no_user = err invalid_credentials
principal_of no_rows = err invalid_credentials
principal_of failed = err storage_error

-- `none` is an authenticator that is nil or has no repository: authentication is disabled.
unfoldable pub authenticate : Option Users → Text → Text → Result AuthError (Option Principal)
unfolding principal_of
authenticate none username password = ok none
authenticate (some users) username password = principal_of (users username password)

-- The credentials are what `r.BasicAuth()` of net/http finds in the request.
unfoldable pub authenticate_request :
    Option Users → Option (Text × Text) → Result AuthError (Option Principal)
authenticate_request none credentials = ok none
authenticate_request (some users) none = err missing_credentials
authenticate_request (some users) (some (username, password)) =
    authenticate (some users) username password

-- strings.SplitN(s, ":", 2), which must give two parts
split_credentials : Text × Option Text → Result AuthError (Text × Text)
split_credentials (username, none) = err bad_payload
split_credentials (username, some password) = ok (username, password)

decoded_or : Option Text → Result AuthError Text
decoded_or none = err bad_base64
decoded_or (some s) = ok s

-- `decode` is base64.StdEncoding.DecodeString.
unfoldable pub authenticate_header :
    (Text → Option Text) → Option Users → Text → Result AuthError (Option Principal)
unfolding split_credentials decoded_or
authenticate_header decode none header = ok none
authenticate_header decode (some users) header = do
  reject_if (is_nil header) missing_header
  reject_if (not (has_prefix (codes "basic ") (to_lower header))) unsupported_scheme
  decoded ← decoded_or (decode (trim (drop 6 header)))
  parts ← split_credentials (cut 58 decoded)
  authenticate (some users) parts.0 parts.1

-- What the middleware does with a request: it calls the next handler with a principal in the
-- context, or it answers 401.
pub data Outcome : Type 0 where
  next : Option Principal → Outcome
  challenge : Outcome

outcome_of : Result AuthError (Option Principal) → Outcome
outcome_of (ok principal) = next principal
outcome_of (err e) = challenge

-- server/internal/auth/http.go
unfoldable pub middleware : Option Users → Option (Text × Text) → Outcome
unfolding outcome_of
middleware none credentials = next none
middleware (some users) credentials = outcome_of (authenticate_request (some users) credentials)

found_of_next :
    (r : UserLookup) {principal : Option Principal}
    → outcome_of (principal_of r) ≡ next principal
    → (user : User) × (r ≡ found user) × (principal ≡ some (new_principal user.username user.roles))
unfolding outcome_of principal_of
found_of_next (found user) h = (user, refl, cc)
found_of_next no_user h = cc
found_of_next _ h = cc

-- With authentication enabled the handlers run only for a principal, and that principal has the
-- name and the roles of a user whom the repository found for the request's own credentials.
pub middleware-next :
    (users : Users) (credentials : Option (Text × Text)) (principal : Option Principal)
    → middleware (some users) credentials ≡ next principal
    → (username : Text) × (password : Text) × (user : User) × (credentials
        ≡ some (username, password))
      × (users username password ≡ found user)
      × (principal ≡ some (new_principal user.username user.roles))
unfolding middleware authenticate_request authenticate
middleware-next users none principal h = cc
middleware-next users (some (username, password)) principal h =
    let (user, at_user, same) = found_of_next (users username password) h in
    (username, password, user, refl, at_user, same)

cut-append :
    (sep : ℕ) (s t : Text)
    → exists (λ c. c == sep) s ≡ false
    → cut sep (s ++ (sep ∷ t)) ≡ (s, some t)
unfolding cut exists
cut-append sep [] t h = ground arith
cut-append sep (c ∷ s) t h = ground (arith, cut-append sep s t)

module _ (encode : Text → Text) (decode : Text → Option Text) where
  -- A header "Basic " followed by the encoded credentials authenticates those credentials, for a
  -- user name without a colon, any password, and an encoding that decodes and has no outer space.
  pub authenticate_header-encode :
      (users : Option Users) (username password : Text)
      → ((s : Text) → decode (encode s) ≡ some s)
      → ((s : Text) → trim (encode s) ≡ encode s)
      → exists (λ c. c == 58) username ≡ false
      → authenticate_header decode users (codes "Basic " ++ encode (username ++ (58 ∷ password)))
        ≡ authenticate users username password
  unfolding authenticate_header authenticate to_lower has_prefix
  authenticate_header-encode none username password h k colon = refl
  authenticate_header-encode (some users) username password h k colon = rw (
    k (username ++ (58 ∷ password)),
    h (username ++ (58 ∷ password)),
    cut-append 58 username password colon,
  )
