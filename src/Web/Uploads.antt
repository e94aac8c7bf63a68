-- ===== src/Web/Uploads.antt =====
-- The part of createTask of server/internal/web/handlers.go that saves the uploaded files.
use agents_management.Prelude.{suc, Bool, List, [], ◌∷◌, ◌++◌, Text, codes, Uuid}
use agents_management.Server.World.{M}
use agents_management.Web.Site.{Site}
use agents_management.Web.Request.{server_error}
use agents_management.Web.Handler.{Handler, ◌>>=◌, ◌>>◌, give, stop_if, effect}

abbrev pub failed_io : Text
failed_io = codes "Internal Server Error"

module _ (site : Site) where
  -- The k-th call of package os or on a file; `true` is an error.
  unfoldable pub io : M Bool
  io w = (site.env.io_fails w.io, record w { io = suc w.io })

  unfoldable pub try_io : Handler (Unit {0})
  unfolding io
  try_io = effect io >>= λ failed. stop_if failed (server_error failed_io)

  unfoldable pub written : Text → Text → M (Unit {0})
  written path content w = (tt, record w { files = w.files ++ ((path, content) ∷ []) })

  -- Open, Create and Copy
  unfoldable pub save_file : Text → Text → Handler (Unit {0})
  save_file path content = try_io >> try_io >> try_io >> effect (written path content)

  unfoldable pub save_files : Text → List (Text × Text) → Handler (List Text)
  save_files dir [] = give []
  save_files dir ((name, content) ∷ files) = do
    save_file (dir ++ (codes "/" ++ name)) content
    rest ← save_files dir files
    give ((dir ++ (codes "/" ++ name)) ∷ rest)

  unfoldable pub save_uploads : Uuid → List (Text × Text) → Handler (List Text)
  save_uploads id [] = give []
  save_uploads id (file ∷ files) =
      try_io >> save_files (codes "uploads/" ++ site.env.format.string id) (file ∷ files)
