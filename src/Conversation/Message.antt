-- ===== src/Conversation/Message.antt =====
-- internal/conversation/message.go and queue.go: the input of a turn, and the messages that wait for
-- one. Times are numbers of nanoseconds; identifiers are drawn by the caller.
use foya.Prelude.{ℕ, List, Text}

pub record AttachmentRef : Type 0 where
  pub id : Text
  pub name : Text
  pub kind : Text
  pub media_type : Text
  pub bytes : ℕ
  pub width : ℕ
  pub height : ℕ
  pub sha256 : Text

pub record BrowserElement : Type 0 where
  pub page_url : Text
  pub page_title : Text
  pub tag : Text
  pub selector : Text
  pub element_text : Text
  pub html : Text

pub record UserInput : Type 0 where
  pub content : Text
  pub command : Text
  pub skill_ref : Text
  pub attachments : List AttachmentRef
  pub browser_elements : List BrowserElement
  pub workspace_files : List Text

pub record QueuedMessage : Type 0 where
  pub id : Text
  pub session_id : Text
  pub content : Text
  pub command : Text
  pub skill_ref : Text
  pub attachments : List AttachmentRef
  pub browser_elements : List BrowserElement
  pub workspace_files : List Text
  pub position : ℕ
  pub created_at : ℕ
  pub updated_at : ℕ

unfoldable pub new_queued_message : Text → ℕ → Text → UserInput → ℕ → QueuedMessage
new_queued_message id now session_id input position = record {
  id = id;
  session_id = session_id;
  content = input.content;
  command = input.command;
  skill_ref = input.skill_ref;
  attachments = input.attachments;
  browser_elements = input.browser_elements;
  workspace_files = input.workspace_files;
  position = position;
  created_at = now;
  updated_at = now;
}

-- `queueInput` of internal/kernel/queue.go.
unfoldable pub queue_input : QueuedMessage → UserInput
queue_input item = record {
  content = item.content;
  command = item.command;
  skill_ref = item.skill_ref;
  attachments = item.attachments;
  browser_elements = item.browser_elements;
  workspace_files = item.workspace_files;
}
