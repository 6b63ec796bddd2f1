-- ===== src/Schema.antt =====
-- The tables that the modelled queries read and write (server/internal/db/sqlc/models.go, generated
-- from server/internal/db/schemas). A uuid is a number of 128 bits, a time the nanoseconds since
-- the epoch, and a sql.Null… value an `Option`. Columns that no modelled query reads are left out.
pub mod Enums
use abhiyan.Prelude.{ℕ, String, Bool, Option, List}
use abhiyan.Schema.Enums.{
  TaskStatus, TaskFulfillmentStatus, TaskReviewStatus, ParticipantRole, ReminderChannel,
  ReminderStatus, RecurrenceUnit, ScoreEventType, UserStatus, TeamRole, SystemRole,
  AttendanceFulfillmentStatus,
}

pub record Task : Type 0 where
  pub id : ℕ
  pub team_id : ℕ
  pub title : String
  pub description : Option String
  pub status : Option TaskStatus
  pub fulfillment_status : Option TaskFulfillmentStatus
  pub review_status : TaskReviewStatus
  pub created_by : ℕ
  pub due_date : Option ℕ
  pub created_at : ℕ

pub record Team : Type 0 where
  pub id : ℕ
  pub org_id : ℕ
  pub name : String

pub record User : Type 0 where
  pub id : ℕ
  pub first_name : Option String
  pub last_name : Option String
  pub email_id : String
  pub phone_number : Option String
  pub face_s3_uri : Option String

pub record OrgMembership : Type 0 where
  pub user_id : ℕ
  pub org_id : ℕ
  pub status : UserStatus

pub record Organization : Type 0 where
  pub id : ℕ
  pub name : String
  pub attendance_enabled : Bool

pub record UserSystemRole : Type 0 where
  pub user_id : ℕ
  pub org_id : ℕ
  pub role : SystemRole

pub record TaskParticipant : Type 0 where
  pub task_id : ℕ
  pub user_id : ℕ
  pub role : ParticipantRole

pub record TeamMember : Type 0 where
  pub team_id : ℕ
  pub user_id : ℕ
  pub team_role : TeamRole

pub record Reminder : Type 0 where
  pub id : ℕ
  pub task_id : ℕ
  pub scheduled_at : ℕ
  pub channel : ReminderChannel
  pub status : Option ReminderStatus
  pub recurrence_value : Option ℕ
  pub recurrence_unit : Option RecurrenceUnit
  pub is_system_spawned : Bool

pub record TaskUpdate : Type 0 where
  pub id : ℕ
  pub task_id : ℕ
  pub user_id : Option ℕ
  pub content : String

pub record TaskUpdateComment : Type 0 where
  pub id : ℕ
  pub task_update_id : ℕ
  pub user_id : Option ℕ
  pub content : String

pub record Notification : Type 0 where
  pub id : ℕ
  pub user_id : ℕ
  pub org_id : ℕ
  pub title : String
  pub message : String
  pub is_read : Bool
  pub task_id : Option ℕ
  pub card_kind : Option String

pub record Attachment : Type 0 where
  pub id : ℕ
  pub task_id : Option ℕ
  pub task_update_id : Option ℕ
  pub task_comment_id : Option ℕ
  pub file_name : String
  pub file_url : String
  pub file_type : String
  pub file_size_bytes : Option ℕ
  pub uploaded_by : ℕ

pub record EmployeeScore : Type 0 where
  pub id : ℕ
  pub task_id : ℕ
  pub user_id : ℕ
  pub team_id : ℕ
  pub org_id : ℕ
  pub event_type : ScoreEventType
  pub points_awarded : ℕ
  pub due_date_snapshot : Option ℕ
  pub event_at : ℕ
  pub superseded : Bool

pub record TeamLeaderboardSetting : Type 0 where
  pub team_id : ℕ
  pub leaderboard_visible : Bool

-- `attendance_date` is a day, counted from the first of the year 0.
pub record AttendanceRecord : Type 0 where
  pub id : ℕ
  pub user_id : ℕ
  pub org_id : ℕ
  pub target_file_uri : Option String
  pub present : Option Bool
  pub status : String
  pub fulfillment : Option AttendanceFulfillmentStatus
  pub attendance_date : ℕ

pub record AppKv : Type 0 where
  pub key : String
  pub count : ℕ
  pub expires_at : ℕ

-- The database. `transcriptions` and `audio_transcodes` hold the attachment that each row is for.
pub record Store : Type 0 where
  pub tasks : List Task
  pub teams : List Team
  pub users : List User
  pub org_memberships : List OrgMembership
  pub organizations : List Organization
  pub user_system_roles : List UserSystemRole
  pub task_participants : List TaskParticipant
  pub team_members : List TeamMember
  pub reminders : List Reminder
  pub task_updates : List TaskUpdate
  pub task_update_comments : List TaskUpdateComment
  pub notifications : List Notification
  pub attachments : List Attachment
  pub transcriptions : List ℕ
  pub audio_transcodes : List ℕ
  pub employee_scores : List EmployeeScore
  pub team_leaderboard_settings : List TeamLeaderboardSetting
  pub attendance_records : List AttendanceRecord
  pub app_kv : List AppKv
