-- ===== src/Notifications/Pages.antt =====
-- The list of a user's price notifications, page by page.
use exchange_watch.Base.{ℕ, ◌-◌, ◌≡◌, ◌<◌, true, length, count_p, leb, All, if◌then◌else◌, arith}
use exchange_watch.Numbers.{Numbers}
use exchange_watch.Notifications.{Notifications, active_target, get_offset, get_notification_list}

module _ (N : Numbers) (T : Notifications N) where
  -- A page has the user's active price notifications and no others: as many as its limit, or what the pages before leave, where
  -- that is less.
  pub get_notification_list_lem :
      (page limit user_idx : ℕ) (db : T.Db)
      → All
          (λ r. active_target N T user_idx r ≡ true)
          (get_notification_list N T page limit user_idx db).items
        × (length (get_notification_list N T page limit user_idx db).items ≡ (
            if leb limit (count_p (active_target N T user_idx) (T.rows db) - get_offset page limit)
            then limit
            else count_p (active_target N T user_idx) (T.rows db) - get_offset page limit))
  unfolding get_notification_list
  get_notification_list_lem page limit user_idx db = (
    T.find_page_fits (active_target N T user_idx) limit (get_offset page limit) db,
    T.find_page_length (active_target N T user_idx) limit (get_offset page limit) db,
  )

  -- A bug: the total count of the answer is the number of entries of its page. It is less than the number of the user's active
  -- price notifications where they are more than the limit.
  pub total_count_of_page :
      (page limit user_idx : ℕ) (db : T.Db)
      → limit < count_p (active_target N T user_idx) (T.rows db)
      → (get_notification_list N T page limit user_idx db).total_count
        < count_p (active_target N T user_idx) (T.rows db)
  unfolding get_notification_list
  total_count_of_page page limit user_idx db more =
      ground (arith, more, (get_notification_list_lem page limit user_idx db).1)
