-- ===== src/Routes/Messages/Tests.antt =====
-- Pages of the messages in the sample.
use pm_chat.Base.{
  ℕ, zero, suc, ◌+◌, ◌≤◌, ◌≡◌, ◌≢◌, ◌⊎◌, refl, String, Bool, Option, none, some, List, [], ◌∷◌,
  arith, ◌==◌, length, keep, Bool-cases, inl, inr,
}
use pm_chat.NameSet
use pm_chat.Models.{Message, Conversation}
use pm_chat.Services.Memory.{small_letters, memory_mongo}
use pm_chat.Services.MemoryRest.{memory_rest}
use pm_chat.Services.Mongo.{first, holds_members}
use pm_chat.Services.Rest.{Rest, message_time}
use pm_chat.Routes.Sample.{m1, m2, m3, talk, store}
use pm_chat.Routes.Paging.{next_cursor, page_of, limit_of, is_before}
use pm_chat.Routes.Paging.Newest.{newest_first}
use pm_chat.Routes.Paging.Follow.{follow}
use pm_chat.Routes.Messages.{not_found, page, get_messages}
use pm_chat.Routes.Messages.Pages.{
  served, IsUp, HasDistinctTimes, follow-get_messages, get_messages-IsPage,
}

abbrev rest : Rest memory_mongo
rest = memory_rest ("alice" ∷ "bob" ∷ "carol" ∷ [])

reading : Unit {0}
unfolding small_letters get_messages next_cursor newest_first follow NameSet.has pm_chat.Base.keep
    pm_chat.Base.all
reading = tt

first_page :
    get_messages memory_mongo rest "alice" "c" (some 2) none store ≡ page (m3 ∷ m2 ∷ []) (some 20)
unfolding reading
first_page = refl

second_page :
    get_messages memory_mongo rest "alice" "c" (some 2) (some 20) store ≡ page (m1 ∷ []) none
unfolding reading
second_page = refl

for_participants : get_messages memory_mongo rest "carol" "c" none none store ≡ not_found
unfolding reading
for_participants = refl

-- A limit of 0 is none: all messages, and no cursor.
no_limit :
    get_messages memory_mongo rest "bob" "c" (some 0) none store ≡ page (m3 ∷ m2 ∷ m1 ∷ []) none
unfolding reading
no_limit = refl

up : IsUp memory_mongo rest "alice" "c" store
unfolding reading
up = record {
  conversation = talk;
  participates = refl;
  finds =
      λ before limit. (page_of message_time before limit (rest.newest_messages "c" store), refl);
}

distinct : HasDistinctTimes memory_mongo rest "c" store
unfolding reading
distinct t = ground arith

follow-get_messages_example :
    follow
      (length (rest.newest_messages "c" store) + 1)
      (λ before. served (get_messages memory_mongo rest "alice" "c" (some 2) before store))
      none
    ≡ some (rest.newest_messages "c" store)
unfolding small_letters
follow-get_messages_example =
    follow-get_messages memory_mongo rest "alice" "c" (some 2) store up distinct (λ e. ground arith)

get_messages-IsPage_example :
    ((c : Conversation) × (first (holds_members "c" ("alice" ∷ [])) store.conversations ≡ some c))
    × ((m3 ∷ m2 ∷ [])
        ≡ page_of message_time none (limit_of 50 100 (some 2)) (rest.newest_messages "c" store))
    × ((length {A = Message} (m3 ∷ m2 ∷ []) ≤ 100)
        ⊎ ((◌≡◌ {A = Option ℕ} (some 2) (some 0))
            × ((m3 ∷ m2 ∷ [])
                ≡ keep (is_before message_time none) (rest.newest_messages "c" store))))
unfolding pm_chat.Base.all small_letters
get_messages-IsPage_example =
    get_messages-IsPage memory_mongo rest "alice" "c" (some 2) none store (m3 ∷ m2 ∷ []) (some 20)
      first_page
