-- ===== src/Notifications/Targets.antt =====
-- Which notifications are accepted, and which are sent.
use exchange_watch.Base.{
  ℕ, ◌+◌, ◌≡◌, ◌⊎◌, ◌≤◌, ◌<◌, ◌&&◌, refl, ap, ◌∙◌, Bool, true, false, List, [], ◌∷◌, ◌++◌, String,
  ok, err, any, filter, count_p, if◌then◌else◌, Bool-cases, inl, inr, arith, count_p-append,
}
use exchange_watch.Numbers.{Numbers}
use exchange_watch.Users.{Devices, find_tokens_by_user}
use exchange_watch.Notifications.{
  NotificationType, NotificationError, already_register_notification, TargetPrice,
  NotificationEntity, History, NotificationCreate, data_of, Notifications, of_user,
  of_type_and_user, of_currencies, same_target, Outbox, create_price_notification, reached,
  send_notification_to_device, trigger_one, trigger_all, handle_target_price_trigger,
}

no_conflict : {A : Type 0} (xs : List A) → any (λ _. false) xs ≡ false
no_conflict [] = refl
no_conflict (x ∷ xs) = no_conflict xs

List-cases : {A : Type 0} (xs : List A) → (xs ≡ []) ⊎ ((y : A) × (ys : List A) × (xs ≡ y ∷ ys))
List-cases [] = inl refl
List-cases (y ∷ ys) = inr (y, ys, refl)

module _ (N : Numbers) (T : Notifications N) where
  bound :
      (u : ℕ) (row : NotificationEntity N) (rows : List (NotificationEntity N))
      → count_p (of_user N u) rows < 10
      → count_p (of_user N u) (rows ++ row ∷ []) ≤ 10
  bound u row rows room = ground (arith, room, count_p-append (of_user N u) rows (row ∷ []))

  -- Creating a notification: a user with ten or more is refused; otherwise, a target price that the user has a notification of
  -- is refused; otherwise a row of it is added, and the user then has at most ten.
  pub create_price_notification_lem :
      (input : TargetPrice N) (u : ℕ) (db : T.Db)
      → (10 ≤ count_p (of_user N u) (T.rows db)
          → create_price_notification N T input u db ≡ err NotificationError.too_many)
        × (count_p (of_user N u) (T.rows db) < 10
            → any (same_target N input) (filter (of_type_and_user N u) (T.rows db)) ≡ true
            → create_price_notification N T input u db ≡ err already_register_notification)
        × (count_p (of_user N u) (T.rows db) < 10
            → any (same_target N input) (filter (of_type_and_user N u) (T.rows db)) ≡ false
            → (row : NotificationEntity N) × (later : T.Db) × (create_price_notification N T input u
                  db
                ≡ ok (row, later))
              × (data_of N row ≡ record {
                user_idx = u;
                notification_type = NotificationType.target_price;
                notification_data = input;
              })
              × (T.rows later ≡ T.rows db ++ row ∷ [])
              × (count_p (of_user N u) (T.rows later) ≤ 10))
  unfolding create_price_notification
  create_price_notification_lem input u db =
      let n = T.count_rows (of_user N u) db in
      let s = T.find_many_any (of_type_and_user N u) (same_target N input) db in
      (
        (λ full. ground (arith, n, full)),
        (λ room h. ground (arith, n, room, s, h)),
        (λ room h.
            let d : NotificationCreate N = record {
              user_idx = u;
              notification_type = NotificationType.target_price;
              notification_data = input;
            } in
            let (row, later, e, q, _, k) = T.create_ok d db (no_conflict (T.rows db)) in
            (
              row,
              later,
              ground (arith, n, room, s, h, e),
              q,
              k,
              rw k (bound u row (T.rows db) room),
            )),
      )

  -- The history row of a notification: its number, its user and its data.
  abbrev pub row_of : NotificationEntity N → History N
  row_of r = record {
    notification_idx = r.idx;
    user_idx = r.user_idx;
    details = r.notification_data;
  }

  module _ (U : Devices) (active : ℕ → Bool) (devices : U.Db) where
    send-histories :
        (u : ℕ) (payload : TargetPrice N) (w : Outbox N)
        → (send_notification_to_device N T U active devices u payload w).histories ≡ w.histories
    unfolding send_notification_to_device find_tokens_by_user
    send-histories u payload w = elim (List-cases (find_tokens_by_user U active u devices)) [
      | inl e ↦ rw (e, send_notification_to_device) refl
      | inr (d, ds, e) ↦ rw (e, send_notification_to_device) refl
    ]

    trigger_one_count :
        (t : History N → Bool) (base code : String) (rate : N.Num) (r : NotificationEntity N)
        (w : Outbox N)
        → count_p t ((trigger_one N T U active devices base code rate r w).histories)
          ≡ count_p t w.histories
            + (if reached N T U active devices rate r && t (row_of r) then 1 else 0)
    unfolding trigger_one
    trigger_one_count t base code rate r w =
        elim (Bool-cases (reached N T U active devices rate r)) [
          | inl h ↦
              rw (h, trigger_one)
                (rw (send-histories (r.user_idx) _ _, count_p-append t w.histories (row_of r ∷ []))
                  (ground arith))
          | inr h ↦ rw (h, trigger_one) (omega arith)
        ]

    trigger_all_count :
        (t : History N → Bool) (base code : String) (rate : N.Num)
        (rs : List (NotificationEntity N)) (w : Outbox N)
        → count_p t ((trigger_all N T U active devices base code rate rs w).histories)
          ≡ count_p t w.histories
            + count_p (λ r. reached N T U active devices rate r && t (row_of r)) rs
    unfolding trigger_all
    trigger_all_count t base code rate [] w = omega arith
    trigger_all_count t base code rate (r ∷ rs) w = ground (
      arith,
      trigger_all_count t base code rate rs (trigger_one N T U active devices base code rate r w),
      trigger_one_count t base code rate r w,
    )

    -- The history rows that a rate writes are, for every test of rows, those of the stored notifications of its currencies whose
    -- target price it reaches, each with the notification's number, user and data, and no other: as many of them pass the test as
    -- of these notifications. It does not matter whether a notification is active or what has been sent before.
    pub handle_target_price_trigger_lem :
        (t : History N → Bool) (base code : String) (rate : N.Num) (db : T.Db) (w : Outbox N)
        → count_p t
            ((handle_target_price_trigger N T U active devices base code rate db w).histories)
          ≡ count_p t w.histories
            + count_p
                (λ r. reached N T U active devices rate r && t (row_of r))
                (filter (of_currencies N base code) (T.rows db))
    unfolding handle_target_price_trigger
    handle_target_price_trigger_lem t base code rate db w =
        trigger_all_count t base code rate (T.find_many (of_currencies N base code) db) w
        ∙ ap (λ n. count_p t w.histories + n)
            (T.find_many_count (of_currencies N base code)
              (λ r. reached N T U active devices rate r && t (row_of r)) db)
