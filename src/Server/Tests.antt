-- ===== src/Server/Tests.antt =====
-- The statements on the handlers, on a small world: two tasks of agent 5 and one delivery.
use agents_management.Prelude.{
  ℕ, true, false, some, [], ◌∷◌, ◌≡◌, ◌≢◌, refl, ◌⊎◌, arith, Text, codes, Uuid, exists, ◌==◌,
  if◌then◌else◌, pos,
}
use agents_management.Prelude.{ltb}
use agents_management.Storage.Model.{
  User, Task, TaskStatus, NotificationDelivery, DeliveryStatus, Time,
}
use agents_management.Storage.Tasks.{get_task_by_id}
use agents_management.Storage.Notifications.{get_notification_delivery_by_id, is_due}
use agents_management.Samples.{
  unary_format, null_string, task_with, disk_payload, disk_event, new_delivery,
}
use agents_management.Server.World.{Env, World, refused, DeliveryFailure, deadline_exceeded}
use agents_management.Prelude.{select}
use agents_management.Server.Dispatch.Owners.{owners, is_other}
use agents_management.Server.Dispatch.Queue.{dispatch_queued_tasks-queue}
use agents_management.Server.Dispatch.{
  dispatch_queued_tasks, assign_tick, handle_task_acknowledgement,
}
use agents_management.Server.Dispatch.Steps.{Assigns, Starts}
use agents_management.Server.Dispatch.Moves.{
  assign_tick-Assigns, handle_task_acknowledgement-Starts,
}
use agents_management.Server.Deliveries.{dispatch_notification_delivery, process_due_deliveries}
use agents_management.Server.Deliveries.Outcomes.{Tried, dispatch_notification_delivery-Tried}
use agents_management.Server.Deliveries.Rounds.{
  refused_times, refused_times-dead, process_due_deliveries-not_due,
}

abbrev pub env : Env
env = record {
  format = unary_format;
  fails = λ k. false;
  send_fails = λ k. false;
  new_uuid = λ k. k;
  unmarshal = λ json. some disk_payload;
  sha256 = λ s. s;
  quote = λ s. s;
  marshal_error = λ s. some s;
  adapter = λ channel. some (λ k event d. refused deadline_exceeded (codes "late"));
  is_positive = λ x. ltb 0 x;
  marshal_usage = λ usages. some [];
  io_fails = λ k. false;
  crypt = λ password salt. password;
  gen_salt = λ k. [];
  parse_time = λ layout value. some 3;
}

abbrev waiting : Task
waiting = task_with 3 TaskStatus.pending null_string

abbrev pub taken : Task
taken = task_with 4 TaskStatus.assigned null_string

abbrev pub administrator : User
administrator = record {
  username = codes "root";
  password_hash = codes "secret";
  is_active = true;
  roles = codes "admin" ∷ [];
}

abbrev pub world : World
world = record {
  tasks = waiting ∷ taken ∷ [];
  results = [];
  agents = [];
  logs = [];
  metrics = [];
  users = administrator ∷ [];
  roles = [];
  files = [];
  events = disk_event ∷ [];
  deliveries = new_delivery ∷ [];
  queue = 3 ∷ [];
  published = [];
  sent = [];
  jobs = [];
  calls = 0;
  sends = 0;
  drawn = 0;
  attempts = 0;
  io = 0;
}

assign_tick-Assigns_example :
    (t' : Task) × (get_task_by_id 3 (assign_tick env 5 world).1.tasks ≡ some t')
    × Assigns waiting t'
assign_tick-Assigns_example =
    assign_tick-Assigns env 5 world 3 waiting (unfold get_task_by_id in refl)

handle_task_acknowledgement-Starts_example :
    (t' : Task) × (get_task_by_id 4
        (handle_task_acknowledgement env 7 true (codes "aaaa") world).1.tasks
      ≡ some t')
    × Starts 7 taken t'
handle_task_acknowledgement-Starts_example =
    handle_task_acknowledgement-Starts env 7 true (codes "aaaa") world 4 taken
      (unfold get_task_by_id in refl)

dispatch_notification_delivery-Tried_example :
    ((d' : NotificationDelivery) × (get_notification_delivery_by_id 4
          (dispatch_notification_delivery env 7 disk_event new_delivery world).1.deliveries
        ≡ some d')
      × (((env.fails world.calls ≡ true) × (d' ≡ new_delivery))
          ⊎ ((env.fails world.calls ≡ false) × Tried new_delivery d')))
    × ((id : Uuid)
        → id ≢ 4
        → get_notification_delivery_by_id id
            (dispatch_notification_delivery env 7 disk_event new_delivery world).1.deliveries
          ≡ get_notification_delivery_by_id id world.deliveries)
dispatch_notification_delivery-Tried_example =
    dispatch_notification_delivery-Tried env 7 disk_event new_delivery world
      (unfold get_notification_delivery_by_id in refl)

abbrev clock : ℕ → Time
clock n = n

abbrev late : ℕ → DeliveryFailure
late n = deadline_exceeded

abbrev no_text : ℕ → Text
no_text n = []

refused_times-dead_example :
    ((refused_times env clock late no_text 3 new_delivery).attempt ≡ pos 3)
    × ((refused_times env clock late no_text 3 new_delivery).status
        ≡ (if 3 == 3 then DeliveryStatus.dead_letter else DeliveryStatus.retry_scheduled))
    × ((at : Time)
        → ◌≡◌ {A = ℕ} 3 3
        → is_due at (refused_times env clock late no_text 3 new_delivery) ≡ false)
refused_times-dead_example =
    refused_times-dead env clock late no_text 2 3 new_delivery refl refl (omega arith) (omega arith)

-- The delivery is scheduled for 1, so at 0 it is not due.
process_due_deliveries-not_due_example :
    get_notification_delivery_by_id 4 (process_due_deliveries env 0 10 world).1.deliveries
    ≡ get_notification_delivery_by_id 4 world.deliveries
process_due_deliveries-not_due_example =
    process_due_deliveries-not_due env 0 10 4 world (unfold exists is_due in refl)

pub never : (k : ℕ) → env.fails k ≡ false
never k = refl

never_sends : (k : ℕ) → env.send_fails k ≡ false
never_sends k = refl

-- Agent 6 has no task, so 3 stays in the queue.
dispatch_queued_tasks-queue_example :
    (dispatch_queued_tasks env 6 world).1.queue
    ≡ select (is_other 6 (owners world.tasks)) world.queue
dispatch_queued_tasks-queue_example = dispatch_queued_tasks-queue env never never_sends 6 world
