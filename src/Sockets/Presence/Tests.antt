-- ===== src/Sockets/Presence/Tests.antt =====
-- Runs of the presence handlers over services in memory.
use pm_chat.Dict
use pm_chat.Base.{◌≡◌, refl, arith, eq_iff, some, true, List, [], ◌∷◌}
use pm_chat.Schema.{object, text, units, string_of}
use pm_chat.Services.Memory.{memory_redis, memory_mongo, put}
use pm_chat.Sockets.Events.{emit, typing_indicator, room_except, conv_room}
use pm_chat.Sockets.Sample.{alice, mallory, world}
use pm_chat.Sockets.Presence.{
  presence_key, mark_online, heartbeat, typing_start, typing_stop, disconnect, parse_typing,
}
use pm_chat.Sockets.Presence.Online.{
  Happening, connects, beats, disconnects, starts, act, run, heartbeat-run,
}

presence : Unit {0}
unfolding mark_online heartbeat typing_start typing_stop disconnect parse_typing act run put emit
    units string_of Dict.get Dict.set Dict.delete
presence = tt

-- A typing indicator goes to any room that the client names, whether it is in it or not.
typing_told :
    (typing_start memory_redis memory_mongo mallory
      (object (("conversationId", text "c") ∷ []))
      5
      world).emitted
    ≡ record {
      target = room_except (conv_room "c");
      event = typing_indicator "c" mallory.user_id true;
    }
      ∷ []
unfolding presence
typing_told = refl

abbrev later : List Happening
later =
    record { client = mallory; now = 2000; action = disconnects }
    ∷ record {
      client = alice;
      now = 3000;
      action = starts (object (("conversationId", text "c") ∷ []));
    }
    ∷ []

heartbeat-run_example :
    memory_redis.at
      (run memory_redis memory_mongo
        (heartbeat memory_redis memory_mongo alice 1000 world)
        later).redis
      (presence_key alice.user_id)
      30999
    ≡ some "online"
heartbeat-run_example =
    heartbeat-run memory_redis memory_mongo alice 1000 30999 world
      (put (presence_key alice.user_id) 30 "online" 1000 []) later refl
      (
        ((λ _ e. ground (arith, eq_iff mallory.user_id alice.user_id)), omega arith),
        (((λ e _. cc), omega arith), tt),
      )
      (omega arith)

-- Two sockets of one user connect, one sends a heartbeat, and the other disconnects.
abbrev two_sockets : List Happening
two_sockets =
    record { client = alice; now = 10; action = connects }
    ∷ record { client = alice; now = 20; action = connects }
    ∷ record { client = alice; now = 30; action = beats }
    ∷ []
