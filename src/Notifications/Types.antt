-- ===== src/Notifications/Types.antt =====
-- helper/opatchy_helper/notification_types.py
use opatchy.Base.{Bool, Eq, String, arith, false, true, ◌↔◌, ◌≡◌}
use opatchy.Models.{Severity}

pub data NotificationKind : Type 0 where
  watch security security_condition : NotificationKind

abbrev pub notification_kind_value : NotificationKind → String
notification_kind_value NotificationKind.watch = "watch"
notification_kind_value NotificationKind.security = "security"
notification_kind_value NotificationKind.security_condition = "security-condition"

abbrev pub notification_kind_beq : NotificationKind → NotificationKind → Bool
notification_kind_beq NotificationKind.watch NotificationKind.watch = true
notification_kind_beq NotificationKind.security NotificationKind.security = true
notification_kind_beq NotificationKind.security_condition NotificationKind.security_condition = true
notification_kind_beq _ _ = false

pub notification_kind_beq_iff :
    (a b : NotificationKind) → (notification_kind_beq a b ≡ true) ↔ (a ≡ b)
notification_kind_beq_iff a b = ground arith

instance abbrev pub notification_kind_eq : Eq NotificationKind
notification_kind_eq = record { beq = notification_kind_beq; beq_iff = notification_kind_beq_iff }

pub data NotificationChange : Type 0 where
  first new unchanged : NotificationChange

abbrev pub notification_change_value : NotificationChange → String
notification_change_value NotificationChange.first = "first"
notification_change_value NotificationChange.new = "new"
notification_change_value NotificationChange.unchanged = "unchanged"

pub record NotificationSettings : Type 0 where
  pub notify_permanent : Bool
  pub notify_security : Bool
  pub security_minimum_severity : Severity

pub record NotificationCandidate : Type 0 where
  pub fingerprint : String
  pub reference : String
  pub kind : NotificationKind
  pub change : NotificationChange
  pub title : String
  pub body : String
