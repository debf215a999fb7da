-- ===== src/Tests/Topics.antt =====
-- A subscriber with two handlers, one of which its program tried to remove.
use common_core.Base.{
  String, ◌≡◌, refl, Bool, false, some, List, [], ◌∷◌, any, list_beq, select, eq_ℕ,
}
use common_core.Base.Result.{ok}
use common_core.Zmq.Topics.{
  Bytes, type_error, text, publish, MessageHandler, new_handler, Subscriber, new_subscriber, add,
  remove, receive,
}
use common_core.Zmq.Topics.Delivered.{
  Steps, none_yet, then_one, added, not_removed, receive-publish,
}

-- The texts of the tests are encoded by their lengths.
abbrev utf8 : String → Bytes
utf8 s = Prim.Native.String.len s ∷ []

abbrev passes : List Bytes → List Bytes → Bool
passes fs [] = false
passes fs (part ∷ parts) = any (λ g. list_beq g part) fs

abbrev first : MessageHandler
first = record { object = 1; message_filter = some (3 ∷ []) }

abbrev second : MessageHandler
second = record { object = 2; message_filter = some (4 ∷ []) }

new_handler_run : new_handler utf8 1 (text "abc") ≡ ok first
unfolding new_handler
new_handler_run = refl

abbrev one : Subscriber
one = record { subscriptions = first ∷ []; filters = (3 ∷ []) ∷ [] }

abbrev both : Subscriber
both = record { subscriptions = first ∷ second ∷ []; filters = (3 ∷ []) ∷ (4 ∷ []) ∷ [] }

reached : Steps new_subscriber both
unfolding add remove
reached =
    then_one
      (then_one (then_one none_yet (added {t = one} first refl)) (added {t = both} second refl))
      (not_removed first type_error refl)

receive-publish_example : receive passes ((3 ∷ []) ∷ (7 ∷ 8 ∷ []) ∷ []) both ≡ (1, 7 ∷ 8 ∷ []) ∷ []
unfolding select publish
receive-publish_example =
    receive-publish utf8 passes (text "abc") (3 ∷ []) (7 ∷ 8 ∷ []) _ both (λ f fs parts h. h)
      reached refl refl
