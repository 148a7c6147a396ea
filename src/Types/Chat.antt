-- ===== src/Types/Chat.antt =====
-- types.go, the chat types. A pointer to a plain value is an `Option`; `int` and `int64` are `ℤ`;
-- a `float64` is its 64 bits; a value of `interface{}` is a JSON value.
use solvela_go.Base.{Bytes, ℕ, ℤ, Bool, Option, List, codes}

-- The bits of an IEEE 754 double.
abbrev pub Float64 : Type 0
Float64 = ℕ

-- What an `interface{}` field holds: `encoding/json` fills it with one of these. A number is its text.
mutual
  pub data Value : Type 0 where
    null : Value
    bool : Bool → Value
    number : Bytes → Value
    string : Bytes → Value
    array : Items → Value
    object : Members → Value

  pub data Items : Type 0 where
    end_items : Items
    item : Value → Items → Items

  pub data Members : Type 0 where
    end_members : Members
    member : Bytes → Value → Members → Members

abbrev pub Role : Type 0
Role = Bytes

abbrev pub role_system : Role
role_system = codes "system"

abbrev pub role_user : Role
role_user = codes "user"

abbrev pub role_assistant : Role
role_assistant = codes "assistant"

abbrev pub role_tool : Role
role_tool = codes "tool"

abbrev pub role_developer : Role
role_developer = codes "developer"

pub record FunctionCall : Type 0 where
  pub name : Bytes
  pub arguments : Bytes

pub record ToolCall : Type 0 where
  pub id : Bytes
  pub type : Bytes
  pub function : FunctionCall

pub record ChatMessage : Type 0 where
  pub role : Role
  pub content : Bytes
  pub name : Option Bytes
  pub tool_calls : List ToolCall
  pub tool_call_id : Option Bytes

pub record FunctionDefinitionInner : Type 0 where
  pub name : Bytes
  pub description : Option Bytes
  pub parameters : Option Value

pub record ToolDefinition : Type 0 where
  pub type : Bytes
  pub function : FunctionDefinitionInner

pub record ChatRequest : Type 0 where
  pub model : Bytes
  pub messages : List ChatMessage
  pub max_tokens : Option ℤ
  pub temperature : Option Float64
  pub top_p : Option Float64
  pub stream : Bool
  pub tools : List ToolDefinition
  pub tool_choice : Option Value

pub record Usage : Type 0 where
  pub prompt_tokens : ℤ
  pub completion_tokens : ℤ
  pub total_tokens : ℤ

pub record ChatChoice : Type 0 where
  pub index : ℤ
  pub message : ChatMessage
  pub finish_reason : Option Bytes

pub record ChatResponse : Type 0 where
  pub id : Bytes
  pub object : Bytes
  pub created : ℤ
  pub model : Bytes
  pub choices : List ChatChoice
  pub usage : Option Usage

pub record FunctionCallDelta : Type 0 where
  pub name : Option Bytes
  pub arguments : Option Bytes

pub record ToolCallDelta : Type 0 where
  pub index : ℤ
  pub id : Option Bytes
  pub type : Option Bytes
  pub function : Option FunctionCallDelta

pub record ChatDelta : Type 0 where
  pub role : Option Role
  pub content : Option Bytes
  pub tool_calls : List ToolCallDelta

pub record ChatChunkChoice : Type 0 where
  pub index : ℤ
  pub delta : ChatDelta
  pub finish_reason : Option Bytes

pub record ChatChunk : Type 0 where
  pub id : Bytes
  pub object : Bytes
  pub created : ℤ
  pub model : Bytes
  pub choices : List ChatChunkChoice
