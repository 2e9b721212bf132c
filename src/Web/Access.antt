-- ===== src/Web/Access.antt =====
-- Who may use the handlers: NewAuthClient of pkg/web/auth.go and Auth of pkg/web/handlers.go. The
-- token file, and the client and the claims of the token library, are parameters; a panic is `none`.
use environment_operator.Prelude.{
  Text, split, Bool, List, [], Option, none, some, Result, ok, err, is_empty, if◌then◌else◌,
}
use environment_operator.Web.{AuthClient, Claims, token_of, authenticate}

pub record AuthConfig : Type 0 where
  pub token_file : Text
  pub oidc_allowed_groups : Text

module _ {C : Type 0} (read_file : Text → Result Text) (oidc_client : Result C) where
  abbrev from_file : Result Text → Result (AuthClient × Option C)
  from_file (err x) = err x
  from_file (ok token) = ok (record { allowed_groups = []; token = token }, none)

  abbrev from_library : Text → Result C → Result (AuthClient × Option C)
  from_library groups (err x) = err x
  from_library groups (ok client) =
      ok (record { allowed_groups = split b',' groups; token = [] }, some client)

  -- A client with the token of the file where one is named, or else one of the library.
  unfoldable pub new_auth_client : AuthConfig → Result (AuthClient × Option C)
  new_auth_client c =
      if is_empty c.token_file
      then from_library c.oidc_allowed_groups oidc_client
      else from_file (read_file c.token_file)

  -- Whether the request, given by the values of its Authorization header, is handed on. Without a
  -- client a nil pointer is read.
  unfoldable pub allows : (Option C → Text → Claims) → AuthConfig → List Text → Option Bool
  unfolding new_auth_client
  allows parse c header = elim (new_auth_client c) [
    | err _ ↦ none
    | ok (client, library) ↦ authenticate (parse library) client (token_of header)
  ]
