-- ===== src/Services/Memory.antt =====
-- Services in memory that meet the laws of Redis and Mongo: the hypotheses on them can hold, and the
-- tests run on these.
use Prim.Native.Char.{Char, code}
use Prim.Native.String
use pm_chat.Base.{
  ℕ, ◌+◌, ◌*◌, ◌<◌, ◌≡◌, ◌≢◌, refl, sym, String, Bool, true, false, not, Option, none, some, List,
  [], ◌∷◌, ◌++◌, map, arith, eq_iff, eq_refl, ◌===◌, if◌then◌else◌, ltb, ◌==◌, keep, Option-cases,
  inl, inr,
}
use pm_chat.Dict
use pm_chat.Dict.{Dict}
use pm_chat.Models.{Message, Conversation}
use pm_chat.Services.{got}
use pm_chat.Services.Redis.{Redis}
use pm_chat.Services.Mongo.{Mongo, NewMessage, stored, holds_members, is_message, mark, first}

pub record Entry : Type 0 where
  pub value : String
  pub until : ℕ

abbrev pub alive : (t : ℕ) → Option Entry → Option String
alive t none = none
alive t (some e) = if ltb t e.until then some e.value else none

abbrev pub read_at : Dict Entry → String → ℕ → Option String
read_at db key t = alive t (Dict.get key db)

unfoldable pub put : (key : String) (ttl : ℕ) (value : String) (now : ℕ) → Dict Entry → Dict Entry
put key ttl value now db = Dict.set key (record { value = value; until = now + ttl * 1000 }) db

unfoldable pub put_new : (key value : String) (ttl now : ℕ) → Dict Entry → Dict Entry × Bool
put_new key value ttl now db = elim (read_at db key now) [
  | none ↦ (put key ttl value now db, true)
  | some v ↦ (db, false)
]

pub put_self :
    (key : String) (ttl : ℕ) (value : String) (now : ℕ) (db : Dict Entry) (t : ℕ)
    → t < now + ttl * 1000
    → read_at (put key ttl value now db) key t ≡ some value
unfolding put
put_self key ttl value now db t h = ground (
  arith,
  eq_refl key,
  Dict.get-set key key (record { value = value; until = now + ttl * 1000 }) db,
)

pub put_other :
    (key : String) (ttl : ℕ) (value : String) (now : ℕ) (db : Dict Entry) (j : String) (t : ℕ)
    → key ≢ j
    → read_at (put key ttl value now db) j t ≡ read_at db j t
unfolding put
put_other key ttl value now db j t h = ground (
  arith,
  eq_iff key j,
  Dict.get-set key j (record { value = value; until = now + ttl * 1000 }) db,
)

pub put_new-refused :
    (key value : String) (ttl now : ℕ) (db db' : Dict Entry)
    → put_new key value ttl now db ≡ (db', false)
    → (db' ≡ db) × (read_at db key now ≢ none)
unfolding put_new
put_new-refused key value ttl now db db' h = elim (Option-cases (read_at db key now)) [
  | inl free ↦ absurd (ground arith)
  | inr (v, taken) ↦ (ground arith, ground arith)
]

pub put_new-stored :
    (key value : String) (ttl now : ℕ) (db db' : Dict Entry)
    → put_new key value ttl now db ≡ (db', true)
    → (read_at db key now ≡ none) × (db' ≡ put key ttl value now db)
unfolding put_new
put_new-stored key value ttl now db db' h = elim (Option-cases (read_at db key now)) [
  | inl free ↦ (free, ground arith)
  | inr (v, taken) ↦ absurd (ground arith)
]

pub put_new-other :
    (key value : String) (ttl now : ℕ) (db db' : Dict Entry) (set : Bool) (j : String) (t : ℕ)
    → put_new key value ttl now db ≡ (db', set)
    → key ≢ j
    → read_at db' j t ≡ read_at db j t
put_new-other key value ttl now db db' true j t h k =
    ground (arith, put_new-stored key value ttl now db db' h, put_other key ttl value now db j t k)
put_new-other key value ttl now db db' false j t h k =
    ground (arith, put_new-refused key value ttl now db db' h)

pub delete_self :
    (key : String) (db : Dict Entry) (t : ℕ) → read_at (Dict.delete key db) key t ≡ none
delete_self key db t = ground (arith, eq_refl key, Dict.get-delete key key db)

pub delete_other :
    (key : String) (db : Dict Entry) (j : String) (t : ℕ)
    → key ≢ j
    → read_at (Dict.delete key db) j t ≡ read_at db j t
delete_other key db j t h = ground (arith, eq_iff key j, Dict.get-delete key j db)

-- `got` is injective.
pub got-injective {ℓ} : {A : Type ℓ} {a b : A} → got a ≡ got b → a ≡ b
got-injective h = cc

abbrev pub memory_redis : Redis
memory_redis = record {
  Db = Dict Entry;
  at = read_at;
  get = λ key now db. got (read_at db key now);
  set_nx = λ key value ttl now db. got (put_new key value ttl now db);
  setex = λ key ttl value now db. got (put key ttl value now db);
  del = λ key now db. got (Dict.delete key db);
  get_lem = λ key now db o h. sym (got-injective h);
  set_nx_refused =
      λ key value ttl now db db' h. put_new-refused key value ttl now db db' (got-injective h);
  set_nx_stored = λ key value ttl now db db' h.
      let (free, same) = put_new-stored key value ttl now db db' (got-injective h) in
      (free, λ t k. rw same (put_self key ttl value now db t k));
  set_nx_other = λ key value ttl now db db' set j t h.
      put_new-other key value ttl now db db' set j t (got-injective h);
  setex_self =
      λ key ttl value now db db' t h k. rw (← got-injective h) (put_self key ttl value now db t k);
  setex_other = λ key ttl value now db db' j t h k.
      rw (← got-injective h) (put_other key ttl value now db j t k);
  del_self = λ key now db db' t h. rw (← got-injective h) (delete_self key db t);
  del_other = λ key now db db' j t h k. rw (← got-injective h) (delete_other key db j t k);
}

pub record Store : Type 0 where
  pub messages : List Message
  pub conversations : List Conversation
  pub next_id : String

unfoldable pub insert_message : NewMessage → ℕ → Store → Store × Message
insert_message new now s =
    let m = stored s.next_id now new in
    (record s { messages = s.messages ++ m ∷ []; next_id = String.◌++◌ s.next_id "i" }, m)

unfoldable pub touch : (id : String) → ℕ → Store → Store
touch id timestamp s = record s {
  conversations =
      map
        (λ (c : Conversation). if c.id === id then record c { last_message_at = timestamp } else c)
        s.conversations;
}

unfoldable pub mark_all : (id conversation_id : String) → Bool → Store → Store × Option Message
mark_all id conversation_id read s =
    let ms = map (mark id conversation_id read) s.messages in
    (record s { messages = ms }, first (is_message id conversation_id) ms)

pub insert_message-laws :
    (new : NewMessage) (now : ℕ) (s s' : Store) (m : Message)
    → insert_message new now s ≡ (s', m)
    → (m ≡ stored m.id now new)
      × (s'.messages ≡ s.messages ++ m ∷ [])
      × (s'.conversations ≡ s.conversations)
unfolding insert_message
insert_message-laws new now s s' m h = (cc, cc, cc)

pub mark_all-laws :
    (id conversation_id : String) (read : Bool) (s s' : Store) (o : Option Message)
    → mark_all id conversation_id read s ≡ (s', o)
    → (s'.messages ≡ map (mark id conversation_id read) s.messages)
      × (o ≡ first (is_message id conversation_id) s'.messages)
      × (s'.conversations ≡ s.conversations)
unfolding mark_all
mark_all-laws id conversation_id read s s' o h = (cc, cc, cc)

pub touch-messages :
    (id : String) (timestamp : ℕ) (s : Store) → (touch id timestamp s).messages ≡ s.messages
unfolding touch
touch-messages id timestamp s = refl

abbrev pub small_letter : Char → Char
small_letter c =
    if code c == b'A'
    then "a"
    else if code c == b'B'
    then "b"
    else if code c == b'C'
    then "c"
    else if code c == b'D'
    then "d"
    else if code c == b'E'
    then "e"
    else if code c == b'F'
    then "f"
    else c

-- A hexadecimal text in small letters.
unfoldable pub small_letters : String → String
small_letters String.[] = String.[]
small_letters (String.◌∷◌ c s) = String.◌∷◌ (small_letter c) (small_letters s)

abbrev pub memory_mongo : Mongo
memory_mongo = record {
  Db = Store;
  object_id = small_letters;
  messages = λ s. s.messages;
  conversations = λ s. s.conversations;
  find_conversation = λ id members s. got (first (holds_members id members) s.conversations);
  create_message = λ new now s. got (insert_message new now s);
  set_last_message_at = λ id timestamp s. got (touch id timestamp s);
  mark_message = λ id conversation_id read s. got (mark_all id conversation_id read s);
  delete_message = λ id s. got (record s { messages = keep (λ m. not (m.id === id)) s.messages });
  find_conversation_lem = λ id members s o h. sym (got-injective h);
  create_message_lem = λ new now s s' m h. insert_message-laws new now s s' m (got-injective h);
  set_last_message_at_lem =
      λ id timestamp s s' h. rw (← got-injective h) (touch-messages id timestamp s);
  mark_message_lem = λ id conversation_id read s s' o h.
      mark_all-laws id conversation_id read s s' o (got-injective h);
  delete_message_lem = λ id s s' h. rw (← got-injective h);
}
