-- ===== src/Schema/Enums.antt =====
-- The enumerations of server/internal/db/schemas, as server/internal/db/sqlc/models.go declares
-- them, and the texts that the server casts to them. `opened` is OPEN.
use abhiyan.Prelude.{String, Bool, true, false, Option, none, some, str_eq, if◌then◌else◌}

pub data TaskStatus : Type 0 where
  opened closed : TaskStatus

pub data TaskFulfillmentStatus : Type 0 where
  pending completed : TaskFulfillmentStatus

pub data TaskReviewStatus : Type 0 where
  unsubmitted pending approved rejected : TaskReviewStatus

pub data ParticipantRole : Type 0 where
  assignee subscriber : ParticipantRole

pub data ReminderChannel : Type 0 where
  whatsapp email : ReminderChannel

pub data ReminderStatus : Type 0 where
  pending sent cancelled : ReminderStatus

pub data RecurrenceUnit : Type 0 where
  minutes hours days weeks months : RecurrenceUnit

pub data ScoreEventType : Type 0 where
  on_time_completion late_completion missed_deadline rejection : ScoreEventType

pub data UserStatus : Type 0 where
  invited active suspended : UserStatus

pub data TeamRole : Type 0 where
  team_admin member : TeamRole

pub data SystemRole : Type 0 where
  super_admin admin employee : SystemRole

pub data AttendanceFulfillmentStatus : Type 0 where
  full_day half_day : AttendanceFulfillmentStatus

abbrev pub is_team_admin : TeamRole → Bool
is_team_admin team_admin = true
is_team_admin member = false

abbrev pub is_super_admin : SystemRole → Bool
is_super_admin super_admin = true
is_super_admin _ = false

-- ADMIN or SUPER_ADMIN
abbrev pub is_system_admin : SystemRole → Bool
is_system_admin employee = false
is_system_admin _ = true

abbrev pub is_assignee : ParticipantRole → Bool
is_assignee assignee = true
is_assignee subscriber = false

abbrev pub is_pending : Option ReminderStatus → Bool
is_pending (some ReminderStatus.pending) = true
is_pending _ = false

abbrev pub is_opened : Option TaskStatus → Bool
is_opened (some opened) = true
is_opened _ = false

abbrev pub is_approved : TaskReviewStatus → Bool
is_approved approved = true
is_approved _ = false

abbrev pub is_missed : ScoreEventType → Bool
is_missed missed_deadline = true
is_missed _ = false

-- ON_TIME_COMPLETION or LATE_COMPLETION
abbrev pub is_completion : ScoreEventType → Bool
is_completion on_time_completion = true
is_completion late_completion = true
is_completion _ = false

abbrev pub is_active : UserStatus → Bool
is_active active = true
is_active _ = false

-- A text that is no label of the type is refused by the database.
unfoldable pub team_role_of : String → Option TeamRole
team_role_of s =
    if str_eq s "TEAM_ADMIN"
    then some team_admin
    else if str_eq s "MEMBER"
    then some member
    else none

unfoldable pub system_role_of : String → Option SystemRole
system_role_of s =
    if str_eq s "SUPER_ADMIN"
    then some super_admin
    else if str_eq s "ADMIN"
    then some admin
    else if str_eq s "EMPLOYEE"
    then some employee
    else none

unfoldable pub user_status_of : String → Option UserStatus
user_status_of s =
    if str_eq s "INVITED"
    then some invited
    else if str_eq s "ACTIVE"
    then some active
    else if str_eq s "SUSPENDED"
    then some suspended
    else none

unfoldable pub fulfillment_of : String → Option AttendanceFulfillmentStatus
fulfillment_of s =
    if str_eq s "FULL_DAY"
    then some full_day
    else if str_eq s "HALF_DAY"
    then some half_day
    else none

unfoldable pub task_status_of : String → Option TaskStatus
task_status_of s =
    if str_eq s "OPEN" then some opened else if str_eq s "CLOSED" then some closed else none

unfoldable pub reminder_channel_of : String → Option ReminderChannel
reminder_channel_of s =
    if str_eq s "WHATSAPP" then some whatsapp else if str_eq s "EMAIL" then some email else none

unfoldable pub recurrence_unit_of : String → Option RecurrenceUnit
recurrence_unit_of s =
    if str_eq s "MINUTES"
    then some minutes
    else if str_eq s "HOURS"
    then some hours
    else if str_eq s "DAYS"
    then some days
    else if str_eq s "WEEKS"
    then some weeks
    else if str_eq s "MONTHS"
    then some months
    else none
