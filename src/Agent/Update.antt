-- ===== src/Agent/Update.antt =====
-- handleAgentUpdateTask of agent/internal/agent.go: the program replaces itself with a file whose
-- checksum it has verified. The archive, the checksum and the replacement are those of packages
-- archive/zip, crypto/sha256 and go-update.
use agents_management.Prelude.{
  Bool, true, false, not, Option, none, some, List, [], ◌∷◌, ◌++◌, Text, codes, trim, is_nil,
  text_eq, text_eq_iff, if◌then◌else◌, Result, ok, err, ◌≡◌, refl, sym, ◌∙◌, ap, Option-cases,
  Result-cases, inl, inr, ◌>>=◌, ◌>>◌, reject_if, >>=-eq-ok, ok-injective, ◌⊎◌,
}
use agents_management.Server.World.{TaskCommand}
use agents_management.Server.Logs.{StreamEnd, eof, broken}
use agents_management.Agent.Report.{Report, Status, success, failure, succeeded}

-- A file of an archive: `none` if it does not open, `some (err e)` if reading it fails.
abbrev pub ZipFile : Type 0
ZipFile = Option (Result Text Text)

pub record Updater : Type 0 where
  pub unzip : Text → Option (List ZipFile)
  pub sha256_hex : Text → Text
  -- update.Apply: the text of the error, if there is one
  pub apply : Text → Option Text

-- The stream of the package: it does not open, or it gives chunks up to its end.
abbrev pub PackageStream : Type 0
PackageStream = Option (List Text × StreamEnd)

first_arg : List Text → Text
first_arg [] = []
first_arg (arg ∷ args) = trim arg

unfoldable pub checksum_of : TaskCommand → Text
unfolding first_arg
checksum_of task =
    let checksum = trim task.command in if is_nil checksum then first_arg task.args else checksum

unfoldable pub joined : List Text → Text
joined [] = []
joined (chunk ∷ chunks) = chunk ++ joined chunks

downloaded : PackageStream → Result Text Text
unfolding joined
downloaded none = err (codes "Failed to start update package download")
downloaded (some (chunks, broken)) = err (codes "Failed during update package download")
downloaded (some (chunks, eof)) = ok (joined chunks)

unzipped : Option (List ZipFile) → Result Text ZipFile
unzipped none = err (codes "Failed to read update package archive")
unzipped (some []) = err (codes "Update package archive is empty")
unzipped (some (file ∷ files)) = ok file

file_body : ZipFile → Result Text Text
file_body none = err (codes "Failed to open update binary inside archive")
file_body (some (err e)) = err (codes "Failed to read downloaded content: " ++ e)
file_body (some (ok body)) = ok body

downloaded-eq-ok :
    (stream : PackageStream) (archive : Text)
    → downloaded stream ≡ ok archive
    → (chunks : List Text) × (stream ≡ some (chunks, eof)) × (archive ≡ joined chunks)
unfolding downloaded
downloaded-eq-ok none archive h = cc
downloaded-eq-ok (some (chunks, broken)) archive h = cc
downloaded-eq-ok (some (chunks, eof)) archive h = (chunks, refl, sym (ok-injective h))

unzipped-eq-ok :
    (o : Option (List ZipFile)) (file : ZipFile)
    → unzipped o ≡ ok file
    → (files : List ZipFile) × (o ≡ some (file ∷ files))
unfolding unzipped
unzipped-eq-ok none file h = cc
unzipped-eq-ok (some []) file h = cc
unzipped-eq-ok (some (f ∷ files)) file h = (files, ap (λ x. some (x ∷ files)) (ok-injective h))

file_body-eq-ok : (file : ZipFile) (body : Text) → file_body file ≡ ok body → file ≡ some (ok body)
unfolding file_body
file_body-eq-ok none body h = cc
file_body-eq-ok (some (err e)) body h = cc
file_body-eq-ok (some (ok content)) body h = ap (λ x. some (ok x)) (ok-injective h)

not_rejected :
    (b : Bool) (message : Text) {x : Unit {0}}
    → ◌≡◌ {A = Result Text (Unit {0})} (reject_if b message) (ok x)
    → b ≡ false
not_rejected true message h = cc
not_rejected false message h = refl

passed :
    (b : Bool) (message : Text) {x : Unit {0}}
    → ◌≡◌ {A = Result Text (Unit {0})} (reject_if (not b) message) (ok x)
    → b ≡ true
passed true message h = refl
passed false message h = cc

module _ (updater : Updater) where
  -- The file that passed every check.
  unfoldable pub verified_body : TaskCommand → PackageStream → Result Text Text
  unfolding downloaded unzipped file_body
  verified_body task stream = do
    let checksum = checksum_of task
    reject_if (is_nil checksum) (codes "Checksum info is missing")
    archive ← downloaded stream
    file ← unzipped (updater.unzip archive)
    body ← file_body file
    reject_if (not (text_eq (updater.sha256_hex body) checksum)) (
        codes "Checksum verification failed. Expected: "
        ++ (checksum ++ (codes ", Got: " ++ updater.sha256_hex body)))
    ok body

  -- What the handler does: its report, the bodies that replaced the program, and whether it exits.
  pub record Updated : Type 0 where
    pub report : Report
    pub applied : List Text
    pub exits : Bool

  unfoldable pub after_apply : Text → Option Text → Updated
  after_apply body (some e) = record {
    report = failure (codes "Failed to apply update: " ++ e);
    applied = [];
    exits = false;
  }
  after_apply body none = record {
    report = succeeded (codes "Agent update applied. Restarting.");
    applied = body ∷ [];
    exits = true;
  }

  unfoldable pub after_checks : Result Text Text → Updated
  unfolding after_apply
  after_checks (err message) = record { report = failure message; applied = []; exits = false }
  after_checks (ok body) = after_apply body (updater.apply body)

  unfoldable pub handle_agent_update_task : TaskCommand → PackageStream → Updated
  unfolding after_checks verified_body
  handle_agent_update_task task stream = after_checks (verified_body task stream)

  -- The body has the checksum of the task and is the first file of the archive that the stream gave.
  pub record IsVerified (task : TaskCommand) (stream : PackageStream) (body : Text) : Type 0 where
    pub chunks : List Text
    pub files : List ZipFile
    pub complete : stream ≡ some (chunks, eof)
    pub archive : updater.unzip (joined chunks) ≡ some (some (ok body) ∷ files)
    pub checksum : updater.sha256_hex body ≡ checksum_of task
    pub named : is_nil (checksum_of task) ≡ false

  verified_body-IsVerified :
      (task : TaskCommand) (stream : PackageStream) (body : Text)
      → verified_body task stream ≡ ok body
      → IsVerified task stream body
  unfolding verified_body
  verified_body-IsVerified task stream body h =
      let (a, named, h1) = >>=-eq-ok _ _ h in
      let (archive, down, h2) = >>=-eq-ok (downloaded stream) _ h1 in
      let (file, unzip, h3) = >>=-eq-ok (unzipped (updater.unzip archive)) _ h2 in
      let (content, read, h4) = >>=-eq-ok (file_body file) _ h3 in
      let (b, checked, h5) = >>=-eq-ok _ _ h4 in
      let (chunks, complete, joint) = downloaded-eq-ok stream archive down in
      let (files, opened) = unzipped-eq-ok (updater.unzip archive) file unzip in
      let same : content ≡ body = ok-injective h5 in
      record {
        chunks = chunks;
        files = files;
        complete = complete;
        archive =
            ap updater.unzip (sym joint)
            ∙ opened
            ∙ ap (λ f. some (f ∷ files))
                (file_body-eq-ok file content read ∙ ap (λ c. some (ok c)) same);
        checksum =
            ap updater.sha256_hex (sym same)
            ∙ (text_eq_iff (updater.sha256_hex content) (checksum_of task)).0
                (passed (text_eq (updater.sha256_hex content) (checksum_of task)) _ checked);
        named = not_rejected (is_nil (checksum_of task)) _ named;
      }

  -- The program is replaced only by a verified body, and exactly then it exits and reports success; in every
  -- other case it reports a failure.
  pub handle_agent_update_task-IsVerified :
      (task : TaskCommand) (stream : PackageStream)
      → let done = handle_agent_update_task task stream in
        ((done.applied ≡ []) × (done.exits ≡ false) × (done.report.status ≡ Status.failed))
        ⊎ ((body : Text) × (done.applied ≡ body ∷ [])
            × (done.exits ≡ true)
            × (done.report.status ≡ success)
            × IsVerified task stream body)
  unfolding handle_agent_update_task after_checks after_apply
  handle_agent_update_task-IsVerified task stream =
      elim (Result-cases (verified_body task stream)) [
        | inr (message, e) ↦ rw e (inl (refl, refl, refl))
        | inl (body, e) ↦ rw e (elim (Option-cases (updater.apply body)) [
          | inr (message, f) ↦ rw f (inl (refl, refl, refl))
          | inl f ↦ rw f (inr (body, refl, refl, refl, verified_body-IsVerified task stream body e))
        ])
      ]
