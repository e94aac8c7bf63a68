-- ===== src/Web/Retry/Due.antt =====
-- What an accepted retry leaves of a delivery.
use agents_management.Prelude.{
  ℕ, zero, suc, Bool, true, false, Option, none, some, List, [], ◌∷◌, Text, if◌then◌else◌, Uuid, ℤ,
  pos, negsuc, ◌<=◌, leb, ◌==◌, ==_iff, int32_suc, max_int32, ◌≡◌, refl, sym, ◌∙◌, ap, subst, arith,
  Bool-cases, Option-cases, ◌⊎◌, inl, inr,
}
use agents_management.Storage.Model.{NotificationDelivery, DeliveryStatus, Time}
use agents_management.Storage.Notifications.{
  get_notification_delivery_by_id, schedule_notification_delivery_retry, retried_delivery,
  update_delivery, is_due,
}
use agents_management.Server.World.{Env, World, stored}
use agents_management.Web.Request.{Request, see_other}
use agents_management.Web.Retry.{
  is_eligible, max_attempts_after, retry_loaded, retry_notification_delivery,
}
use agents_management.Web.Answers.{refused, redirected}
use agents_management.Web.Retry.Answers.{
  MayRetry, MayRetry-counted, Scheduled, retry_loaded-Answers,
}

get_notification_delivery_by_id-id :
    (id : Uuid) (ds : List NotificationDelivery) (d : NotificationDelivery)
    → get_notification_delivery_by_id id ds ≡ some d
    → d.id ≡ id
unfolding get_notification_delivery_by_id
get_notification_delivery_by_id-id id [] d = λ h. cc
get_notification_delivery_by_id-id id (e ∷ ds) d = elim (Bool-cases (e.id == id)) [
  | inl same ↦ rw same (λ h.
      ap (λ (o : Option NotificationDelivery). elim o [ none ↦ id | some x ↦ x.id ]) (sym h)
      ∙ (==_iff e.id id).0 same)
  | inr other ↦ rw other (get_notification_delivery_by_id-id id ds d)
]

get-update_delivery :
    (id j : Uuid) (change : NotificationDelivery → NotificationDelivery)
    (ds : List NotificationDelivery)
    → ((d : NotificationDelivery) → (change d).id ≡ d.id)
    → get_notification_delivery_by_id j (update_delivery id change ds)
      ≡ (elim (get_notification_delivery_by_id j ds) [
        | none ↦ none
        | some d ↦ some (if id == j then change d else d)
      ])
unfolding get_notification_delivery_by_id update_delivery
get-update_delivery id j change [] same = refl
get-update_delivery id j change (d ∷ ds) same =
    ground (arith, get-update_delivery id j change ds same, same d)

untouched :
    (k j : Uuid) (change : NotificationDelivery → NotificationDelivery)
    (o : Option NotificationDelivery)
    → (k == j) ≡ false
    → (elim o [ none ↦ none | some d ↦ some (if k == j then change d else d) ]) ≡ o
untouched k j change none h = refl
untouched k j change (some d) h = rw h refl

-- A delivery that is dead, failed or cancelled.
abbrev pub HasEnded : DeliveryStatus → Type 0
HasEnded status =
    (status ≡ DeliveryStatus.dead_letter)
    ⊎ ((status ≡ DeliveryStatus.failed) ⊎ (status ≡ DeliveryStatus.cancelled))

is_eligible-HasEnded : (status : DeliveryStatus) → is_eligible status ≡ true → HasEnded status
unfolding is_eligible
is_eligible-HasEnded DeliveryStatus.dead_letter h = inl refl
is_eligible-HasEnded DeliveryStatus.failed h = inr (inl refl)
is_eligible-HasEnded DeliveryStatus.cancelled h = inr (inr refl)
is_eligible-HasEnded DeliveryStatus.pending h = cc
is_eligible-HasEnded DeliveryStatus.sent h = cc
is_eligible-HasEnded DeliveryStatus.retry_scheduled h = cc

leb_refl : (n : ℕ) → leb n n ≡ true
leb_refl n = ground arith

int32_suc-greater : (z : ℤ) → (pos max_int32 <= z) ≡ false → (int32_suc z <= z) ≡ false
unfolding int32_suc
int32_suc-greater (pos n) h = ground (arith, h)
int32_suc-greater (negsuc zero) h = refl
int32_suc-greater (negsuc (suc n)) h = ground arith

retried-is_due :
    (now : Time) (d : NotificationDelivery)
    → is_due now (retried_delivery (max_attempts_after d) (pos now) d) ≡ true
unfolding retried_delivery is_due
retried-is_due now d = leb_refl now

retried-attempt_left :
    (now : Time) (d : NotificationDelivery)
    → (pos max_int32 <= d.attempt) ≡ false
    → let row = retried_delivery (max_attempts_after d) (pos now) d in
      (row.max_attempts <= row.attempt) ≡ false
unfolding retried_delivery max_attempts_after
retried-attempt_left now d small = elim (Bool-cases (d.max_attempts <= d.attempt)) [
  | inl e ↦ rw e (int32_suc-greater d.attempt small)
  | inr e ↦ rw e e
]

module _ (env : Env) where
  -- The rows after an accepted retry of delivery `id`.
  pub record Retried (r : Request) (now : Time) (id : Uuid) (d : NotificationDelivery)
      (w w' : World) : Type 0 where
    pub found : get_notification_delivery_by_id id w.deliveries ≡ some d
    pub eligible : HasEnded d.status
    pub may : MayRetry env r.principal d w
    pub row : NotificationDelivery
    pub now_holds : get_notification_delivery_by_id id w'.deliveries ≡ some row
    pub due : is_due now row ≡ true
    pub attempt_left :
        (pos max_int32 <= d.attempt) ≡ false → (row.max_attempts <= row.attempt) ≡ false
    pub others :
        (j : Uuid)
        → (id == j) ≡ false
        → get_notification_delivery_by_id j w'.deliveries
          ≡ get_notification_delivery_by_id j w.deliveries

  Scheduled-Retried :
      (r : Request) (now : Time) (id : Uuid) (d : NotificationDelivery) (w w' : World)
      → get_notification_delivery_by_id id w.deliveries ≡ some d
      → Scheduled env r now d w w'
      → Retried r now id d w w'
  unfolding schedule_notification_delivery_retry
  Scheduled-Retried r now id d w w' found s =
      let change = retried_delivery (max_attempts_after d) (pos now) in
      let same = get_notification_delivery_by_id-id id w.deliveries d found in
      let look = λ (j : Uuid).
        ap (get_notification_delivery_by_id j) s.rows
        ∙ get-update_delivery d.id j change w.deliveries (λ e. unfold retried_delivery in refl) in
      record {
        found = found;
        eligible = is_eligible-HasEnded d.status s.eligible;
        may = s.may;
        row = change d;
        now_holds = look id ∙ rw (found, (==_iff d.id id).1 same) refl;
        due = retried-is_due now d;
        attempt_left = retried-attempt_left now d;
        others = λ j differs.
            look j
            ∙ untouched d.id j change (get_notification_delivery_by_id j w.deliveries)
                (subst (λ k. (k == j) ≡ false) (sym same) differs);
      }

  -- A retry that is answered with a redirection is of a stored delivery that is dead, failed or cancelled and
  -- that the principal may see. Its row is then due and, if the attempts that were made are below the
  -- largest int32, has an attempt left; the other rows are as they were.
  pub retry_notification_delivery-Retried :
      (configured : Bool) (r : Request) (now : Time) (w : World) (url : Text)
      → (retry_notification_delivery env configured r now w).0 ≡ see_other url
      → (id : Uuid) × (d : NotificationDelivery) × (env.format.parse r.id ≡ some id)
        × Retried r now id d w (retry_notification_delivery env configured r now w).1
  unfolding retry_notification_delivery stored
  retry_notification_delivery-Retried false r now w url = refused _ url tt
  retry_notification_delivery-Retried true r now w url =
      elim (Option-cases (env.format.parse r.id)) [
        | inl n ↦ rw n (refused _ url tt)
        | inr (id, p) ↦ rw p (elim (Bool-cases (env.fails w.calls)) [
          | inl e ↦ rw e (refused _ url tt)
          | inr e ↦ rw e (elim (Option-cases (get_notification_delivery_by_id id w.deliveries)) [
            | inl n ↦ rw n (refused _ url tt)
            | inr (d, found) ↦
                let counted = record w { calls = suc w.calls } in
                let loaded = retry_loaded env r now d counted in
                rw found (λ h.
                  redirected (λ reply w'. Scheduled env r now d counted w') loaded.0 loaded.1 url
                    (retry_loaded-Answers env r now d counted) h
                    (λ reply s. (
                      id,
                      d,
                      refl,
                      Scheduled-Retried r now id d w loaded.1 found (record {
                        eligible = s.eligible;
                        may = MayRetry-counted env r.principal d w s.may;
                        rows = s.rows;
                      }),
                    )))
          ])
        ])
      ]
