-- ===== src/Multilogger/Ordered.antt =====
-- Whatever the caller and the worker threads do, messages keep their order.
use mathlib.Core.List.{append-nil, append_assoc, Sublistᴰ}
use mathlib.Core.List.Sublistᴰ
use common_core.Base.{
  ℕ, zero, suc, ◌≡◌, refl, sym, ap, ◌∙◌, inl, inr, Bool, true, ◌&&◌, Option, none, some, List, [],
  ◌∷◌, ◌++◌, drop, Bool-cases,
}
use mathlib.Core.Option.{some_inj}
use common_core.RoundRobin.{is_full, put_nowait}
use common_core.RoundRobin.Newest.{put_roundrobin-drops}
use common_core.Multilogger.{
  Line, Submitter, new_submitter, to_list, open_writer, put_end, to_end, close_writer, submit_to,
  submit, moved, take, change, change_queue, Steps, none_yet, by_open, by_close, by_submit, by_take,
  by_take_now, by_end,
}

module _ {A : Type 0} where
  Sublist_refl : (xs : List A) → Sublistᴰ xs xs
  Sublist_refl [] = Sublistᴰ.slnil
  Sublist_refl (x ∷ xs) = Sublistᴰ.cons-cons refl (Sublist_refl xs)

  Sublist-append :
      {xs ys us vs : List A} → Sublistᴰ xs ys → Sublistᴰ us vs → Sublistᴰ (xs ++ us) (ys ++ vs)
  Sublist-append Sublistᴰ.slnil t = t
  Sublist-append (Sublistᴰ.cons s) t = Sublistᴰ.cons (Sublist-append s t)
  Sublist-append (Sublistᴰ.cons-cons e s) t = Sublistᴰ.cons-cons e (Sublist-append s t)

  -- The messages among some items
  abbrev pub somes : List (Option A) → List A
  somes [] = []
  somes (none ∷ xs) = somes xs
  somes (some x ∷ xs) = x ∷ somes xs

  somes-append : (xs ys : List (Option A)) → somes (xs ++ ys) ≡ somes xs ++ somes ys
  somes-append [] ys = refl
  somes-append (none ∷ xs) ys = somes-append xs ys
  somes-append (some x ∷ xs) ys = ap (λ l. x ∷ l) (somes-append xs ys)

  somes-drop : (k : ℕ) (xs : List (Option A)) → Sublistᴰ (somes (drop k xs)) (somes xs)
  somes-drop zero xs = Sublist_refl (somes xs)
  somes-drop (suc k) [] = Sublistᴰ.slnil
  somes-drop (suc k) (none ∷ xs) = somes-drop k xs
  somes-drop (suc k) (some x ∷ xs) = Sublistᴰ.cons (somes-drop k xs)

module _ {M : Type 0} where
  -- The messages of a line: those that were taken, and those that wait
  abbrev pub messages_in : Line M → List M
  messages_in l = somes (l.taken ++ l.queue.items)

  abbrev pub messages_of : List (Line M) → List M
  messages_of [] = []
  messages_of (l ∷ ls) = messages_in l ++ messages_of ls

  abbrev pub messages : Submitter M → List M
  messages s = messages_of s.closed ++ messages_of (to_list s.queue)

  messages_of-append :
      (ls ks : List (Line M)) → messages_of (ls ++ ks) ≡ messages_of ls ++ messages_of ks
  messages_of-append [] ks = refl
  messages_of-append (l ∷ ls) ks =
      ap (λ ms. messages_in l ++ ms) (messages_of-append ls ks)
      ∙ sym (append_assoc (messages_in l) (messages_of ls) (messages_of ks))

  messages_in-moved :
      (l : Line M) (items : List (Option M))
      → l.queue.items ≡ items
      → messages_in (moved l items) ≡ messages_in l
  messages_in-moved l [] e = refl
  messages_in-moved l (x ∷ xs) e =
      ap somes (append_assoc l.taken (x ∷ []) xs ∙ ap (λ items. l.taken ++ items) (sym e))

  messages_in-take : (l : Line M) → messages_in (take l) ≡ messages_in l
  unfolding take
  messages_in-take l = messages_in-moved l l.queue.items refl

  messages_in-put_end : (l : Line M) → messages_in (put_end l) ≡ messages_in l
  unfolding put_end put_nowait
  messages_in-put_end l = elim (Bool-cases l.ending) [
    | inr e ↦ rw e refl
    | inl e ↦ elim (Bool-cases (is_full l.queue)) [
      | inl f ↦ rw (e, f) refl
      | inr f ↦
          rw (e, f)
            (ap somes (sym (append_assoc l.taken l.queue.items (none ∷ [])))
              ∙ somes-append (l.taken ++ l.queue.items) (none ∷ [])
              ∙ append-nil (messages_in l))
    ]
  ]

  messages_of-change :
      (f : Line M → Line M) (n : ℕ) (ls : List (Line M))
      → ((l : Line M) → messages_in (f l) ≡ messages_in l)
      → messages_of (change f n ls) ≡ messages_of ls
  unfolding change
  messages_of-change f n [] keep = refl
  messages_of-change f zero (l ∷ ls) keep = ap (λ ms. ms ++ messages_of ls) (keep l)
  messages_of-change f (suc n) (l ∷ ls) keep =
      ap (λ ms. messages_in l ++ ms) (messages_of-change f n ls keep)

  messages_of-queue :
      (f : Line M → Line M) (o : Option (Line M))
      → ((l : Line M) → messages_in (f l) ≡ messages_in l)
      → messages_of (to_list (change_queue f o)) ≡ messages_of (to_list o)
  messages_of-queue f none keep = refl
  messages_of-queue f (some l) keep = ap (λ ms. ms ++ []) (keep l)

  messages-open_writer :
      (alive : Bool) (s : Submitter M) → messages (open_writer alive s) ≡ messages s
  unfolding open_writer
  messages-open_writer alive s = elim (Bool-cases (s.writer_thread && alive)) [
    | inl e ↦ rw e refl
    | inr e ↦ rw e (append-nil _ ∙ messages_of-append s.closed (to_list s.queue))
  ]

  messages-close_writer : (s : Submitter M) → messages (close_writer s) ≡ messages s
  unfolding close_writer
  messages-close_writer s =
      append-nil _
      ∙ messages_of-append s.closed (to_end s.queue)
      ∙ ap (λ ms. messages_of s.closed ++ ms) (ends s.queue)
    where
      ends : (o : Option (Line M)) → messages_of (to_end o) ≡ messages_of (to_list o)
      ends none = refl
      ends (some l) = ap (λ ms. ms ++ []) (messages_in-put_end (record l { ending = true }))

  Adds : M → Submitter M → Type 0
  Adds m s =
      (u : Submitter M) × (submit m s ≡ some u) × Sublistᴰ (messages u) (messages s ++ m ∷ [])

  -- Submitting adds the message, and discards some of the oldest that wait.
  submit-Adds : (m : M) (s : Submitter M) → Adds m s
  unfolding submit Adds
  submit-Adds m s = with_queue s.queue
    where
      more : (xs : List M) → Sublistᴰ xs (xs ++ m ∷ [])
      more [] = Sublistᴰ.nil-sublist (m ∷ [])
      more (x ∷ xs) = Sublistᴰ.cons-cons refl (more xs)

      with_queue : (o : Option (Line M)) → Adds m (record s { queue = o })
      with_queue none =
          (record s { queue = none }, refl, more (messages (record s { queue = none })))
      with_queue (some l) =
          let (k, put) = put_roundrobin-drops l.queue.maxsize l.queue.items (some m) in
          let kept : Sublistᴰ (somes (drop k (l.queue.items ++ some m ∷ [])))
              (somes l.queue.items ++ m ∷ []) =
            rw (sym (somes-append l.queue.items (some m ∷ [])))
              (somes-drop k (l.queue.items ++ some m ∷ [])) in
          (
            _,
            ap (submit_to (record s { queue = some l }) l) put,
            simp (somes-append, append-nil, append_assoc)
                (Sublist-append (Sublist_refl (messages_of s.closed))
                  (Sublist-append (Sublist_refl (somes l.taken)) kept)),
          )

  -- What was taken from the queues, and what waits in them, queue after queue
  Steps-Sublist :
      {n : ℕ} {ms : List M} {s : Submitter M}
      → Steps (new_submitter n) ms s
      → Sublistᴰ (messages s) ms
  unfolding Adds
  Steps-Sublist none_yet = Sublistᴰ.slnil
  Steps-Sublist (by_open {ms} {t} alive steps) =
      rw (messages-open_writer alive t) (Steps-Sublist steps)
  Steps-Sublist (by_close {ms} {t} steps) = rw (messages-close_writer t) (Steps-Sublist steps)
  Steps-Sublist (by_submit {ms} {t} {u} m steps e) =
      let (v, returned, adds) = submit-Adds m t in
      let same : u ≡ v = some_inj.0 (sym e ∙ returned) in
      rw same (Sublistᴰ.trans adds (Sublist-append (Steps-Sublist steps) (Sublist_refl (m ∷ []))))
  Steps-Sublist (by_take {ms} {t} k steps) =
      rw (messages_of-change take k t.closed messages_in-take) (Steps-Sublist steps)
  Steps-Sublist (by_take_now {ms} {t} steps) =
      rw (messages_of-queue take t.queue messages_in-take) (Steps-Sublist steps)
  Steps-Sublist (by_end {ms} {t} k steps) =
      rw (messages_of-change put_end k t.closed messages_in-put_end) (Steps-Sublist steps)

  -- After any steps of the caller and the workers from a new submitter on, the messages that were
  -- taken from its queues and those that wait in them, queue after queue, are among the submitted
  -- ones, in the order they were submitted and each at most as often, and a further message is
  -- submitted within the rounds of its queue.
  pub Steps-ordered :
      {n : ℕ} {ms : List M} {s : Submitter M}
      → (m : M) → Steps (new_submitter n) ms s
      → Sublistᴰ (messages s) ms × ((u : Submitter M) × (submit m s ≡ some u))
  unfolding Adds
  Steps-ordered {s = s} m steps =
      let (u, returned, adds) = submit-Adds m s in (Steps-Sublist steps, (u, returned))
