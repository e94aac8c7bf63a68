-- ===== src/Server/Logs.antt =====
-- StreamLogs of server/internal/server.go: the entries of a stream are saved in batches of 100. The
-- stream is the entries that `Recv` returns before its end, which is io.EOF or another error.
use agents_management.Prelude.{
  ℕ, suc, Bool, true, false, Option, none, some, List, [], ◌∷◌, ◌++◌, Text, Uuid, ℤ, leb, length,
  if◌then◌else◌, ◌≡◌, refl, sym, ◌∙◌, ap, subst, arith, ◌<◌, Bool-cases, Option-cases, inl, inr,
  append_nil,
}
use mathlib.Core.List.{append_assoc}
use agents_management.Server.World.{Env, World, M, Log, pure, stored, draw, ◌>>=◌, ◌>>◌}

-- api.LogEntry
pub record LogEntry : Type 0 where
  pub agent_id : Text
  pub task_id : Text
  pub timestamp : ℤ
  pub level : Text
  pub message : Text

pub data StreamEnd : Type 0 where
  eof broken : StreamEnd

module _ (env : Env) where
  unfoldable pub log_of : LogEntry → Uuid → Uuid → Uuid → Log
  log_of e agent_id task_id id = record {
    id = id;
    agent_id = agent_id;
    task_id = task_id;
    timestamp = e.timestamp;
    level = e.level;
    message = e.message;
  }

  -- CreateLogEntries, a transaction
  unfoldable pub create_log_entries : List Log → M (Option (Unit {0}))
  create_log_entries batch = stored env (λ w. (some tt, record w { logs = w.logs ++ batch }))

  -- A full buffer is saved, whether or not that fails, and emptied.
  flush_if_full : List Log → M (List Log)
  unfolding create_log_entries
  flush_if_full buffer =
      if leb 100 (length buffer) then create_log_entries buffer >> pure [] else pure buffer

  -- An entry whose ids are no UUIDs is skipped.
  receive : List Log → LogEntry → Option Uuid → Option Uuid → M (List Log)
  unfolding flush_if_full
  receive buffer e (some agent_id) (some task_id) =
      draw env >>= λ id. flush_if_full (buffer ++ (log_of e agent_id task_id id ∷ []))
  receive buffer e (some agent_id) none = pure buffer
  receive buffer e none task_id = pure buffer

  -- `true` is the response of success, `false` the error of the stream.
  finish : List Log → StreamEnd → M Bool
  unfolding create_log_entries
  finish buffer broken = pure false
  finish [] eof = pure true
  finish (log ∷ buffer) eof = create_log_entries (log ∷ buffer) >> pure true

  receive_all : List Log → List LogEntry → StreamEnd → M Bool
  unfolding receive finish
  receive_all buffer [] end = finish buffer end
  receive_all buffer (e ∷ entries) end =
      receive buffer e (env.format.parse e.agent_id) (env.format.parse e.task_id) >>= λ buffer'.
      receive_all buffer' entries end

  unfoldable pub stream_logs : List LogEntry → StreamEnd → M Bool
  unfolding receive_all
  stream_logs = receive_all []

  abbrev pub logs_from : LogEntry → Option Uuid → Option Uuid → (ℕ → List Log) → ℕ → List Log
  logs_from e (some agent_id) (some task_id) rest k =
      log_of e agent_id task_id (env.new_uuid k) ∷ rest (suc k)
  logs_from e (some agent_id) none rest k = rest k
  logs_from e none task_id rest k = rest k

  -- The logs that the entries stand for, of which the first is to have the k-th id.
  unfoldable pub logs_of : List LogEntry → ℕ → List Log
  logs_of [] k = []
  logs_of (e ∷ entries) k =
      logs_from e (env.format.parse e.agent_id) (env.format.parse e.task_id) (logs_of entries) k

  -- What is saved and what was still in the buffer.
  abbrev pub Saved : List Log → StreamEnd → World → Type 0
  Saved expected end w =
      (lost : List Log) × (w.logs ++ lost ≡ expected)
      × (length lost < 100)
      × (end ≡ eof → lost ≡ [])

  finish-Saved :
      (buffer : List Log) (end : StreamEnd) (w : World)
      → ((k : ℕ) → env.fails k ≡ false)
      → length buffer < 100
      → Saved (w.logs ++ buffer) end (finish buffer end w).1
  unfolding finish create_log_entries stored
  finish-Saved buffer broken w ok h = (buffer, refl, h, λ e. cc)
  finish-Saved [] eof w ok h = ([], refl, h, λ e. refl)
  finish-Saved (log ∷ buffer) eof w ok h =
      ([], rw (ok w.calls) (append_nil (w.logs ++ (log ∷ buffer))), omega arith, λ e. refl)

  -- A step on the buffer
  record Buffered (w : World) (all : List Log) (drawn : ℕ) (r : List Log × World) : Type 0 where
    pub grows : r.1.logs ++ r.0 ≡ w.logs ++ all
    pub small : length r.0 < 100
    pub draws : r.1.drawn ≡ drawn

  flush_if_full-Buffered :
      (buffer : List Log) (w : World)
      → ((k : ℕ) → env.fails k ≡ false)
      → Buffered w buffer w.drawn (flush_if_full buffer w)
  unfolding flush_if_full create_log_entries stored
  flush_if_full-Buffered buffer w ok = elim (Bool-cases (leb 100 (length buffer))) [
    | inl e ↦
        rw (e, ok w.calls)
          (record { grows = append_nil (w.logs ++ buffer); small = omega arith; draws = refl })
    | inr e ↦ rw e (record { grows = refl; small = ground (arith, e); draws = refl })
  ]

  -- The next log is either behind the buffer or saved with it.
  regrouped :
      (saved buffer rest : List Log) (log : Log) (now_saved left : List Log)
      → now_saved ++ left ≡ saved ++ (buffer ++ (log ∷ []))
      → now_saved ++ (left ++ rest) ≡ saved ++ (buffer ++ (log ∷ rest))
  regrouped saved buffer rest log now_saved left h =
      sym (append_assoc now_saved left rest)
      ∙ ap (λ xs. xs ++ rest) h
      ∙ append_assoc saved (buffer ++ (log ∷ [])) rest
      ∙ ap (λ xs. saved ++ xs) (append_assoc buffer (log ∷ []) rest)

  receive_all-Saved :
      (buffer : List Log) (entries : List LogEntry) (end : StreamEnd) (w : World)
      → ((k : ℕ) → env.fails k ≡ false)
      → length buffer < 100
      → Saved
          (w.logs ++ (buffer ++ logs_of entries w.drawn))
          end
          (receive_all buffer entries end w).1
  unfolding receive_all logs_of receive draw
  receive_all-Saved buffer [] end w ok h = rw (append_nil buffer) (finish-Saved buffer end w ok h)
  receive_all-Saved buffer (e ∷ entries) end w ok h =
      elim (Option-cases (env.format.parse e.agent_id)) [
        | inl n ↦ rw n (receive_all-Saved buffer entries end w ok h)
        | inr (agent_id, p) ↦ rw p (elim (Option-cases (env.format.parse e.task_id)) [
          | inl n ↦ rw n (receive_all-Saved buffer entries end w ok h)
          | inr (task_id, q) ↦
              let drawn = record w { drawn = suc w.drawn } in
              let log = log_of e agent_id task_id (env.new_uuid w.drawn) in
              let r = flush_if_full (buffer ++ (log ∷ [])) drawn in
              let step = flush_if_full-Buffered (buffer ++ (log ∷ [])) drawn ok in
              rw q (
                subst (λ all. Saved all end (receive_all r.0 entries end r.1).1)
                  (ap (λ k. r.1.logs ++ (r.0 ++ logs_of entries k)) step.draws
                    ∙ regrouped w.logs buffer (logs_of entries (suc w.drawn)) log r.1.logs r.0
                        step.grows)
                  (receive_all-Saved r.0 entries end r.1 ok step.small))
        ])
      ]

  -- If no statement fails, the table gains the logs of the valid entries, in order, with ids in the order
  -- of the draws: all of them if the stream ends with io.EOF, all but fewer than 100 at the end if it
  -- breaks.
  pub stream_logs-Saved :
      (entries : List LogEntry) (end : StreamEnd) (w : World)
      → ((k : ℕ) → env.fails k ≡ false)
      → Saved (w.logs ++ logs_of entries w.drawn) end (stream_logs entries end w).1
  unfolding stream_logs
  stream_logs-Saved entries end w ok = receive_all-Saved [] entries end w ok (omega arith)
