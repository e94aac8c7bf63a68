-- ===== src/Web/Request.antt =====
-- What the handlers of server/internal/web read of a request and how they answer it.
use agents_management.Prelude.{
  Bool, Option, List, [], ◌∷◌, ◌++◌, Text, codes, text_eq, if◌then◌else◌,
}
use agents_management.Auth.{Principal}

-- The principal in the context, the values of the path and the fields of the form, each with its
-- values. `form_error` is the error of `r.ParseForm()`.
pub record Request : Type 0 where
  pub principal : Option Principal
  pub username : Text
  pub id : Text
  pub form : List (Text × List Text)
  pub form_error : Bool
  -- The uploaded files: their names and what they hold.
  pub files : List (Text × Text)

-- http.Error, a page that is rendered with an error on it, or http.Redirect with
-- http.StatusSeeOther
pub data Reply : Type 0 where
  bad_request forbidden not_found server_error not_implemented page : Text → Reply
  see_other : Text → Reply

-- r.Form[key]
unfoldable pub form_values : List (Text × List Text) → Text → List Text
form_values [] key = []
form_values ((k, values) ∷ form) key =
    let rest = form_values form key in if text_eq k key then values else rest

abbrev first : List Text → Text
first [] = []
first (v ∷ values) = v

-- r.FormValue(key)
unfoldable pub form_value : Request → Text → Text
unfolding form_values
form_value r key = first (form_values r.form key)

unfoldable pub flash : Text → Reply
flash text = see_other (codes "/access?flash=" ++ text)
