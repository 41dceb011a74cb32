-- ===== src/Client/Socket/Tests.antt =====
-- A client that receives events.
use pm_chat.Base.{ℕ, ◌≡◌, refl, String, Bool, true, false, none, some, List, [], ◌∷◌, map, length}
use pm_chat.Dict
use pm_chat.NameSet
use pm_chat.Sockets.Events.{Event, message_new, message_status, typing_indicator, user_presence}
use pm_chat.Client.ChatStore.{
  LocalMessage, initial, messages_of, unread_of, add_message, increment_unread, set_typing,
  set_online, update_message_status,
}
use pm_chat.Client.Socket.{receive}
use pm_chat.Client.Socket.Arrival.{arrived, ids_of, run, run-views}

receiving : Unit {0}
unfolding receive run arrived add_message increment_unread set_typing set_online
    update_message_status Dict.get Dict.set NameSet.has NameSet.add NameSet.remove
receiving = tt

abbrev iso : ℕ → String
iso time = "1970-01-01T00:00:00.000Z"

abbrev events : List Event
events =
    user_presence "bob" "online"
    ∷ message_new "m1" "c" "bob" "c2VjcmV0" "aXY=" none 0 none false
    ∷ message_new "m2" "d" "bob" "c2VjcmV0" "aXY=" (some "/api/attachments/a.enc") 0 none false
    ∷ message_new "m3" "c" "alice" "c2VjcmV0" "aXY=" none 0 (some 1000) true
    ∷ typing_indicator "c" "bob" true
    ∷ message_status "m1" "c" "read"
    ∷ message_status "m3" "c" "delivered"
    ∷ []

flags :
    map {B = Bool × Bool}
      (λ (m : LocalMessage). (m.delivered, m.read))
      (messages_of "c" (run iso events initial))
    ≡ (false, true) ∷ (true, false) ∷ []
unfolding receiving
flags = refl

shown_offline : NameSet.has "bob" (run iso events initial).online_users ≡ false
unfolding receiving
shown_offline = refl

run-views_example :
    (ids_of "c" (run iso events initial) ≡ arrived "c" events)
    × (unread_of "c" (run iso events initial) ≡ length (arrived "c" events))
    × (NameSet.has "bob" (run iso events initial).online_users ≡ false)
run-views_example = run-views iso "c" "bob" events
