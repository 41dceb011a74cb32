-- ===== src/Routes/Conversations/Tests.antt =====
-- Conversations of the sample, created and deleted.
use pm_chat.Base.{ℕ, ◌≡◌, ◌⊎◌, refl, String, true, none, some, List, [], ◌∷◌}
use pm_chat.NameSet
use pm_chat.Schema
use pm_chat.Services.Memory.{small_letters, memory_mongo}
use pm_chat.Services.MemoryRest.{memory_rest, add_conversation}
use pm_chat.Services.Rest.{Rest}
use pm_chat.Routes.Sample.{elsewhere, talk, other_talk, store}
use pm_chat.Routes.Paging.{next_cursor}
use pm_chat.Routes.Paging.Newest.{newest_first}
use pm_chat.Routes.Conversations.{
  CreateBody, meets_schema, has_company, server_error, page, list_conversations, created,
  unknown_participants, not_found, deleted, create_conversation, get_conversation,
  delete_conversation,
}
use pm_chat.Routes.Conversations.Creation.{Answers, create_conversation-Answers}
use pm_chat.Routes.Conversations.Deletion.{Outcome, delete_conversation-Outcome}

abbrev bob : String
bob = "bbbbbbbbbbbbbbbbbbbbbbb0"

abbrev rest : Rest memory_mongo
rest = memory_rest ("alice" ∷ bob ∷ [])

talking : Unit {0}
unfolding small_letters create_conversation get_conversation delete_conversation list_conversations
    meets_schema has_company add_conversation next_cursor newest_first NameSet.has NameSet.add
    NameSet.from Schema.is_object_id pm_chat.Base.keep pm_chat.Base.all
talking = tt

abbrev body : List String → CreateBody
body ids = record { participant_ids = ids; self_destruct = some true; expires_in_ms = some 5_000 }

-- The creator is added, each participant once.
with_creator :
    (create_conversation memory_mongo rest "alice" (body (bob ∷ bob ∷ [])) 100 store).1
    ≡ created (record {
      id = "n";
      participants = "alice" ∷ bob ∷ [];
      last_message_at = 100;
      self_destruct = true;
      expires_at = some 5_100;
    })
unfolding talking
with_creator = refl

-- A body that names nobody but the creator.
alone_fails :
    (create_conversation memory_mongo rest bob (body (bob ∷ [])) 100 store).1 ≡ server_error
unfolding talking
alone_fails = refl

unknown_user :
    (create_conversation memory_mongo rest "alice"
      (body ("bbbbbbbbbbbbbbbbbbbbbbb1" ∷ []))
      100
      store).1
    ≡ unknown_participants
unfolding talking
unknown_user = refl

listed : list_conversations memory_mongo rest "bob" (some 1) none store ≡ page (talk ∷ []) (some 30)
unfolding talking
listed = refl

not_shown : get_conversation memory_mongo rest "carol" "c" store ≡ not_found
unfolding talking
not_shown = refl

removed :
    delete_conversation memory_mongo rest "alice" "c" store
    ≡ (record store { messages = elsewhere ∷ []; conversations = other_talk ∷ [] }, deleted)
unfolding talking
removed = refl

create_conversation-Answers_example :
    Answers memory_mongo rest "alice"
      (body (bob ∷ []))
      100
      store
      (create_conversation memory_mongo rest "alice" (body (bob ∷ [])) 100 store)
create_conversation-Answers_example =
    create_conversation-Answers memory_mongo rest "alice" (body (bob ∷ [])) 100 store

delete_conversation-Outcome_example :
    Outcome memory_mongo rest "alice" "c" store
      (delete_conversation memory_mongo rest "alice" "c" store)
delete_conversation-Outcome_example =
    delete_conversation-Outcome memory_mongo rest "alice" "c" store
