-- ===== src/Tasks/Domain.antt =====
-- crates/tasks/src/domain.rs: a task, and the event that announces it.
use rust_basics.Prelude.{ℕ, Bool, String}

pub record Task : Type 0 where
  pub id : String
  pub title : String
  pub done : Bool
  pub created_at : ℕ

pub record TaskCreatedEvent : Type 0 where
  pub id : String
  pub title : String
  pub created_at : ℕ

-- `TaskCreatedEvent::from`
unfoldable pub event_from : Task → TaskCreatedEvent
event_from t = record { id = t.id; title = t.title; created_at = t.created_at }
