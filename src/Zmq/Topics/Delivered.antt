-- ===== src/Zmq/Topics/Delivered.antt =====
-- Which handlers a published message reaches.
use mathlib.Core.List.{append-nil}
use mathlib.Core.Path.{subst}
use common_core.Base.{
  String, ◌≡◌, refl, ap, Bool, true, false, Option, none, some, List, [], ◌∷◌, ◌++◌, map, any,
  select, All, option_beq, list_beq, if◌then◌else◌, arith, eq_ℕ, eq_list, Bool-cases, inl, inr,
  nat_eq, list_beq_reflects,
}
use common_core.Base.Result.{ok, raised}
use common_core.Zmq.Topics.{
  Bytes, Failure, Topic, encode_topic, publish, MessageHandler, combine_parts, Subscriber,
  new_subscriber, handle_parts, add_once, add_filter, add, remove, clear, process_message, receive,
}

abbrev has : Bytes → List Bytes → Bool
has f fs = any (λ g. list_beq g f) fs

-- A handler with a filter that the socket holds
abbrev Filtered : List Bytes → MessageHandler → Type 0
Filtered fs h = (f : Bytes) × (h.message_filter ≡ some f) × (has f fs ≡ true)

abbrev AllFiltered : List Bytes → List MessageHandler → Type 0
AllFiltered fs hs = All (Filtered fs) hs

-- What a program does with a subscriber; what raises an exception changes nothing.
pub data Step (s : Subscriber) : Subscriber → Type 0 where
  added : {t : Subscriber} (h : MessageHandler) → add h s ≡ ok t → Step s t
  not_added : (h : MessageHandler) (e : Failure) → add h s ≡ raised e → Step s s
  not_removed : (h : MessageHandler) (e : Failure) → remove h s ≡ raised e → Step s s
  removed : {t : Subscriber} (h : MessageHandler) → remove h s ≡ ok t → Step s t
  cleared : Step s (clear s)

pub data Steps (s : Subscriber) : Subscriber → Type 0 where
  none_yet : Steps s s
  then_one : {t u : Subscriber} → Steps s t → Step t u → Steps s u

has-append : (f g : Bytes) (fs : List Bytes) → has f fs ≡ true → has f (fs ++ g ∷ []) ≡ true
unfolding any
has-append f g [] h = cc
has-append f g (x ∷ fs) h = ground (arith, has-append f g fs)

has-append_self : (f : Bytes) (fs : List Bytes) → has f (fs ++ f ∷ []) ≡ true
unfolding any
has-append_self f [] = rw ((list_beq_reflects f f).1 refl) refl
has-append_self f (x ∷ fs) = ground (arith, has-append_self f fs)

AllFiltered-append :
    (g : Bytes) (fs : List Bytes) (hs : List MessageHandler)
    → AllFiltered fs hs
    → AllFiltered (fs ++ g ∷ []) hs
AllFiltered-append g fs [] a = tt
AllFiltered-append g fs (h ∷ hs) a =
    ((a.0.0, a.0.1, has-append a.0.0 g fs a.0.2), AllFiltered-append g fs hs a.1)

AllFiltered-add_once :
    (h : MessageHandler) (fs : List Bytes) (hs : List MessageHandler)
    → Filtered fs h
    → AllFiltered fs hs
    → AllFiltered fs (add_once h hs)
unfolding add_once
AllFiltered-add_once h fs [] f a = (f, tt)
AllFiltered-add_once h fs (g ∷ hs) f a =
    elim (nat_eq g.object h.object)
      as (λ b. AllFiltered fs (if b then g ∷ hs else g ∷ add_once h hs)) [
        | true ↦ a
        | false ↦ (a.0, AllFiltered-add_once h fs hs f a.1)
      ]

add_filter-AllFiltered :
    (o : Option Bytes) (h : MessageHandler) (s : Subscriber) {t : Subscriber}
    → h.message_filter ≡ o
    → add_filter h o s ≡ ok t
    → AllFiltered s.filters s.subscriptions
    → AllFiltered t.filters t.subscriptions
unfolding add_filter
add_filter-AllFiltered none h s p e a = cc
add_filter-AllFiltered (some f) h s {t} p e a =
    let u : Subscriber = record {
      subscriptions = add_once h s.subscriptions;
      filters = s.filters ++ f ∷ [];
    } in
    let same : u ≡ t = cc in
    subst (λ v. AllFiltered v.filters v.subscriptions) same
      (AllFiltered-add_once h (s.filters ++ f ∷ []) s.subscriptions
        (f, p, has-append_self f s.filters) (AllFiltered-append f s.filters s.subscriptions a))

Step-AllFiltered :
    {s t : Subscriber}
    → Step s t
    → AllFiltered s.filters s.subscriptions
    → AllFiltered t.filters t.subscriptions
unfolding add remove clear
Step-AllFiltered {s} (added h e) a = add_filter-AllFiltered h.message_filter h s refl e a
Step-AllFiltered (not_added h x e) a = a
Step-AllFiltered (not_removed h x e) a = a
Step-AllFiltered (removed h e) a = cc
Step-AllFiltered cleared a = tt

Steps-AllFiltered :
    {s : Subscriber} → Steps new_subscriber s → AllFiltered s.filters s.subscriptions
Steps-AllFiltered none_yet = tt
Steps-AllFiltered (then_one steps step) = Step-AllFiltered step (Steps-AllFiltered steps)

-- The handlers for a topic
abbrev pub listening : Bytes → List MessageHandler → List MessageHandler
listening f hs = select (λ h. option_beq h.message_filter (some f)) hs

process_message-topic :
    (f payload : Bytes) (fs : List Bytes) (hs : List MessageHandler)
    → AllFiltered fs hs
    → process_message (f ∷ payload ∷ []) hs ≡ map (λ h. (h.object, payload)) (listening f hs)
unfolding process_message select combine_parts
process_message-topic f payload fs [] a = refl
process_message-topic f payload fs (h ∷ hs) a =
    let rest = process_message-topic f payload fs hs a.1 in
    elim (Bool-cases (list_beq a.0.0 f)) [
      | inl t ↦ rw (a.0.1, t, handle_parts, append-nil) (ap (λ l. (h.object, payload) ∷ l) rest)
      | inr n ↦ rw (a.0.1, n) rest
    ]

unheard :
    (f : Bytes) (fs : List Bytes) (hs : List MessageHandler)
    → AllFiltered fs hs
    → has f fs ≡ false
    → listening f hs ≡ []
unfolding select
unheard f fs [] a n = refl
unheard f fs (h ∷ hs) a n =
    let differs : list_beq a.0.0 f ≡ false = ground (arith, a.0.2, n, list_beq_reflects a.0.0 f) in
    rw (a.0.1, differs) (unheard f fs hs a.1 n)

-- A socket lets the messages pass whose first part is one of its filters.
abbrev pub PassesFilters : (List Bytes → List Bytes → Bool) → Type 0
PassesFilters passes =
    (f : Bytes) (fs parts : List Bytes)
    → any (λ g. list_beq g f) fs ≡ true
    → passes fs (f ∷ parts) ≡ true

received :
    (passes : List Bytes → List Bytes → Bool) (f payload : Bytes) (s : Subscriber)
    → PassesFilters passes
    → AllFiltered s.filters s.subscriptions
    → receive passes (f ∷ payload ∷ []) s
      ≡ map (λ h. (h.object, payload)) (listening f s.subscriptions)
unfolding receive
received passes f payload s lets a = elim (Bool-cases (passes s.filters (f ∷ payload ∷ []))) [
  | inl t ↦ rw (receive, t) (process_message-topic f payload s.filters s.subscriptions a)
  | inr n ↦
      let stays : has f s.filters ≡ false = ground (arith, lets f s.filters (payload ∷ []), n) in
      rw (receive, n, unheard f s.filters s.subscriptions a stays) refl
]

-- Whatever handlers a subscriber has added, tried to remove, and cleared: a message that is published
-- under a topic calls exactly the handlers among its subscriptions whose filter is that topic, each
-- once, in the order of the set, and with exactly the data that was published; provided that the
-- socket lets the messages pass whose first part is one of its filters.
pub receive-publish :
    (utf8 : String → Bytes) (passes : List Bytes → List Bytes → Bool) (topic : Topic)
    (f payload : Bytes) (parts : List Bytes) (s : Subscriber)
    → PassesFilters passes
    → Steps new_subscriber s
    → encode_topic utf8 topic ≡ ok (some f)
    → publish utf8 topic payload ≡ ok parts
    → receive passes parts s ≡ map (λ h. (h.object, payload)) (listening f s.subscriptions)
unfolding publish
receive-publish utf8 passes topic f payload parts s lets steps encoded sent =
    let sent_parts : f ∷ payload ∷ [] ≡ parts = ground (arith, encoded, sent) in
    subst (λ p. receive passes p s ≡ map (λ h. (h.object, payload)) (listening f s.subscriptions))
      sent_parts (received passes f payload s lets (Steps-AllFiltered steps))
