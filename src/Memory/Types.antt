-- ===== src/Memory/Types.antt =====
-- packages/claw-mem/src/types.ts: the rows of the memory, and the length of a JavaScript string.
-- An importance, a double from 0 to 1, is the number that its 64 bits spell, which is in the same
-- order; times are milliseconds, and seconds where the table has seconds.
use claw_mem.Prelude.{
  if◌then◌else◌, ltb, ℕ, ◌+◌, ◌/◌, String, Bool, Option, none, some, List, [], ◌∷◌,
}
use claw_mem.Backup.Pattern.{codes}

pub record Observation : Type 0 where
  pub id : ℕ
  pub session_id : String
  pub agent_id : String
  pub observation_type : String
  pub title : String
  pub facts : List String
  pub narrative : Option String
  pub concepts : List String
  pub files_read : List String
  pub files_modified : List String
  pub tool_name : Option String
  pub prompt_number : ℕ
  pub token_estimate : ℕ
  pub content_hash : String
  pub created_at : String
  pub created_at_epoch : ℕ
  pub compacted : ℕ
  pub importance : ℕ
  pub compacted_into : Option ℕ

pub record ObservationInput : Type 0 where
  pub session_id : String
  pub agent_id : String
  pub observation_type : String
  pub title : String
  pub facts : List String
  pub narrative : Option String
  pub concepts : List String
  pub files_read : List String
  pub files_modified : List String
  pub tool_name : Option String
  pub prompt_number : ℕ
  pub importance : Option ℕ

pub record SessionRow : Type 0 where
  pub session_id : String
  pub agent_id : String
  pub started_at_epoch : ℕ
  pub completed_at_epoch : Option ℕ
  pub prompt_count : ℕ
  pub observation_count : ℕ
  pub completed : Bool

-- `s.length`: a character behind the first plane counts twice.
unfoldable pub units : List ℕ → ℕ
units [] = 0
units (c ∷ cs) = (if ltb 0xFFFF c then 2 else 1) + units cs

abbrev pub text_length : String → ℕ
text_length s = units (codes s)

-- `if (text) chars += text.length`.
abbrev pub optional_length : Option String → ℕ
optional_length none = 0
optional_length (some s) = text_length s

-- `for (const t of texts) chars += t.length`.
abbrev pub total_length : List String → ℕ
total_length [] = 0
total_length (s ∷ ss) = text_length s + total_length ss

-- `Math.ceil(chars / CHARS_PER_TOKEN)`.
abbrev pub tokens_of : ℕ → ℕ
tokens_of chars = (chars + 3) / 4
