-- ===== src/Types.antt =====
-- The bus's data: internal/types/types.go, and the `store` struct of internal/server/store.go.
-- A time is a number of nanoseconds since the epoch. A stamp is what time.Parse reads off a stored
-- RFC 3339 text: none if it does not parse. A nil map is an empty one; a nil slice that the code
-- tells from an empty one is `none`.
use aimebu.Prelude.{
  ℤ, Map, NoKey, Text, text_eq, nat_beq, nat_eq, ℕ, ◌*◌, ◌/◌, ◌≡◌, refl, ◌⊎◌, inl, inr, Bool, true,
  false, Option, some, List, [], ◌∷◌, arith,
}

abbrev pub Stamp : Type 0
Stamp = Option ℕ

abbrev pub second : ℕ
second = 1_000_000_000

-- `now()`: the clock's text keeps whole seconds.
abbrev pub stamp : ℕ → Stamp
stamp t = some (t / second * second)

-- "ai", "human", "system", and "" of messages stored before the field existed.
pub data Kind : Type 0 where
  unset ai human system : Kind

abbrev pub is_ai : Kind → Bool
is_ai ai = true
is_ai _ = false

abbrev pub is_human : Kind → Bool
is_human human = true
is_human _ = false

abbrev pub is_system : Kind → Bool
is_system system = true
is_system _ = false

pub record Room : Type 0 where
  pub id : Text
  pub members : List Text
  pub created_at : Stamp
  pub created_by : Text
  pub roles : Map Text Text
  pub memory_enabled : Option Bool

pub record OpenQuestion : Type 0 where
  pub question : Text
  pub description : Text
  pub options : List Text

pub record AppendixPage : Type 0 where
  pub title : Text
  pub body : Text

pub record PlanBlock : Type 0 where
  pub id : Text
  pub type : Text
  pub title : Text
  pub payload : Text
  pub order : ℕ

pub record Reaction : Type 0 where
  pub agent_id : Text
  pub emoji : Text
  pub created_at : Stamp

pub record Attachment : Type 0 where
  pub id : Text
  pub mime : Text
  pub name : Text
  pub size : ℕ
  pub width : ℕ
  pub height : ℕ

pub record Message : Type 0 where
  pub id : ℕ
  pub room_id : Text
  pub from : Text
  pub from_kind : Kind
  pub from_harness : Text
  pub from_model : Text
  pub body : Text
  pub created_at : Stamp
  pub reply_to : ℕ
  pub targets : Option (List Text)
  pub needs_human_attention : Bool
  pub proposed_answers : List Text
  pub open_questions : List OpenQuestion
  pub visual_plan : List PlanBlock
  pub appendix_pages : List AppendixPage
  pub attachments : List Attachment

pub data AgentState : Type 0 where
  no_state bootstrapping idle thinking tool_call respawning error stopped stale offline : AgentState

abbrev pub state_code : AgentState → ℕ
state_code no_state = 0
state_code bootstrapping = 1
state_code idle = 2
state_code thinking = 3
state_code tool_call = 4
state_code respawning = 5
state_code error = 6
state_code stopped = 7
state_code stale = 8
state_code offline = 9

abbrev pub same_state : AgentState → AgentState → Bool
same_state a b = nat_beq (state_code a) (state_code b)

pub record Agent : Type 0 where
  pub id : Text
  pub name : Text
  pub kind : Kind
  pub model : Text
  pub harness : Text
  pub project : Text
  pub meta : Map Text Text
  pub state : AgentState
  pub state_at : Stamp
  pub pending_state : AgentState
  pub registered_at : Stamp
  pub last_seen : Stamp
  pub read_cursors : Map Text ℕ

pub record AgentSession : Type 0 where
  pub full_id : Text
  pub origin : Text
  pub harness : Text
  pub model : Text
  pub project : Text
  pub cwd : Text
  pub harness_session_id : Text
  pub resume_command : Text
  pub registered_at : ℕ
  pub last_seen : ℕ

-- store_room_prefs.go: RoomPref.
pub record RoomPref : Type 0 where
  pub hidden : Bool
  pub pinned : Bool

-- A memory scope is one of three texts. Versions start at 1.
pub record MemoryRecord : Type 0 where
  pub id : Text
  pub scope : Text
  pub scope_key : Text
  pub body : Text
  pub version : ℕ
  pub author : Text
  pub source_message_id : ℤ
  pub created_at : Stamp
  pub updated_at : Stamp

-- What the store sends to its subscribers. A room or agent update carries a snapshot that the
-- receiver reads off the store.
pub data Event : Type 0 where
  room_update agent_update : Event
  posted : Message → Event
  attention_event : Message → Event
  presence : Text → Text → Option ℕ → Bool → Event
  read_update : Text → Text → ℕ → Event

pub record Store : Type 0 where
  pub next_id : ℕ
  pub rooms : Map Text Room
  pub messages : Map Text (List Message)
  pub agents : Map Text Agent
  pub agent_sessions : Map Text AgentSession
  pub open_waits : Map Text (Map Text ℕ)
  pub open_ws : Map Text ℕ
  pub attachments : Map Text Attachment
  pub reactions : Map ℕ (List Reaction)
  pub room_prefs : Map Text (Map Text RoomPref)
  -- The cardinality that each role was given: an override, a custom role, a role of the catalogue.
  pub roles_overrides : Map Text Text
  pub roles_custom : Map Text Text
  pub role_catalog : Map Text Text
  pub memory : Map Text MemoryRecord
  -- The setting of that name; none if nobody has answered yet.
  pub memory_enabled : Option Bool
  pub events : List Event

-- An error carries the text's kind, not its words.
pub data Error : Type 0 where
  reserved not_registered room_not_found not_in_room not_member bad_reply reply_not_found : Error
  name_required name_in_use bad_name name_held collides_with_role pool_exhausted id_exists : Error
  too_many bad_attachment attachment_not_found type_required too_long bad_json body_required : Error
  message_not_found hidden_conflict role_conflict human_role : Error
  memory_disabled source_not_found unknown_scope no_project other_project no_scope_key : Error
  other_profile memory_full memory_not_found scope_mismatch version_required stale_version : Error
  not_human query_required id_required : Error

pub data Result {ℓ} (A : Type ℓ) : Type ℓ where
  ok : A → Result A
  err : Error → Result A

infixl 5 ◌>>=◌
abbrev pub ◌>>=◌ {ℓ κ} : {A : Type ℓ} {B : Type κ} → Result A → (A → Result B) → Result B
ok a >>= f = f a
err e >>= f = err e

-- Inversions of a result and of a chain that succeeds.
pub Result-cases {ℓ} :
    {A : Type ℓ} (r : Result A) → ((a : A) × (r ≡ ok a)) ⊎ ((e : Error) × (r ≡ err e))
Result-cases (ok a) = inl (a, refl)
Result-cases (err e) = inr (e, refl)

pub bind-ok {ℓ κ} :
    {A : Type ℓ} {B : Type κ} (x : Result A) (f : A → Result B) (b : B)
    → (x >>= f) ≡ ok b
    → (a : A) × (x ≡ ok a) × (f a ≡ ok b)
bind-ok (ok a) f b h = (a, refl, h)
bind-ok (err e) f b h = absurd (ground arith)

abbrev pub send : Event → Store → Store
send e s = record s { events = e ∷ s.events }

-- A call that fails leaves the store as it was.
abbrev pub after : Store → Result Store → Store
after s (ok t) = t
after s (err e) = s

abbrev pub after_pair {ℓ} : {A : Type ℓ} → Store → Result (Store × A) → Store
after_pair s (ok (t, a)) = t
after_pair s (err e) = s

abbrev pub after_triple {ℓ κ} : {A : Type ℓ} {B : Type κ} → Store → Result (Store × A × B) → Store
after_triple s (ok (t, a, b)) = t
after_triple s (err e) = s

-- Agents stand under their IDs, each once.
abbrev pub Keyed : Map Text Agent → Type 0
Keyed [] = Unit {0}
Keyed ((id, a) ∷ rest) = (a.id ≡ id) × NoKey id rest × Keyed rest
