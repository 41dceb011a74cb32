-- ===== src/Sockets/Rooms/Tests.antt =====
-- Runs of the room handlers on the world of Sockets/Sample.
use pm_chat.Dict
use pm_chat.Base.{all, ◌≡◌, refl, ◌⊎◌, true, [], ◌∷◌}
use pm_chat.NameSet
use pm_chat.Schema.{Input, object, no_object, text, is_object_id, object_id}
use pm_chat.Services.Memory.{small_letters, memory_mongo}
use pm_chat.Sockets.Events.{conv_room, error, ok, not_a_participant, validation_failed}
use pm_chat.Sockets.Sample.{alice, mallory, world, conversation_id}
use pm_chat.Sockets.Rooms.{connect, conversation_join, conversation_leave, parse_join_leave}
use pm_chat.Sockets.Rooms.Membership.{step, join, leave, run, Admits, Some, run-Admits}

abbrev asked : Input
asked = object (("conversationId", text conversation_id) ∷ [])

joins :
    conversation_join memory_mongo alice asked world.mongo [] ≡ (conv_room conversation_id ∷ [], ok)
unfolding conversation_join parse_join_leave object_id is_object_id NameSet.has NameSet.add Dict.get
    all small_letters
joins = refl

stranger_refused :
    conversation_join memory_mongo mallory asked world.mongo [] ≡ ([], error not_a_participant)
unfolding conversation_join parse_join_leave object_id is_object_id NameSet.has NameSet.add Dict.get
    all small_letters
stranger_refused = refl

malformed_refused :
    conversation_leave memory_mongo alice no_object [] ≡ ([], error validation_failed)
unfolding conversation_leave parse_join_leave
malformed_refused = refl

run-Admits_example :
    (NameSet.has (conv_room conversation_id) (connect memory_mongo alice) ≡ true)
    ⊎ Some memory_mongo alice
        (Admits memory_mongo alice (conv_room conversation_id))
        (leave no_object world.mongo ∷ join asked world.mongo ∷ [])
unfolding run step connect conversation_join conversation_leave parse_join_leave object_id
    is_object_id NameSet.has NameSet.add Dict.get all small_letters
run-Admits_example =
    run-Admits memory_mongo alice (connect memory_mongo alice)
      (leave no_object world.mongo ∷ join asked world.mongo ∷ []) (conv_room conversation_id) refl
