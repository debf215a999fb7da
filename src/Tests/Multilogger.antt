-- ===== src/Tests/Multilogger.antt =====
-- The log handler with its queues.
use mathlib.Core.List.{Sublistᴰ}
use common_core.Base.{ℕ, ◌≡◌, refl, Option, true, false, none, some, List, [], ◌∷◌}
use common_core.RoundRobin.{is_full, put_nowait, put_loop, put_roundrobin}
use common_core.Multilogger.{
  Submitter, open_writer, close_writer, submit, take, change, none_yet, by_open, by_close,
  by_submit, by_take, by_end,
}
use common_core.Multilogger.Ordered.{messages, Steps-ordered}

-- Room for two messages
abbrev waiting : List (Option ℕ) → Submitter ℕ
waiting items = record {
  queue_size = 2;
  queue =
      some (record { taken = []; queue = record { maxsize = 2; items = items }; ending = false });
  writer_thread = true;
  closed = [];
}

-- Of three messages the oldest goes; the end waits until one is taken.
abbrev ended : Submitter ℕ
ended = record {
  queue_size = 2;
  queue = none;
  writer_thread = false;
  closed =
      record {
        taken = some 2 ∷ [];
        queue = record { maxsize = 2; items = some 3 ∷ none ∷ [] };
        ending = false;
      }
      ∷ [];
}

Steps-ordered_example :
    Sublistᴰ (messages ended) (1 ∷ 2 ∷ 3 ∷ []) × ((u : Submitter ℕ) × (submit 4 ended ≡ some u))
unfolding open_writer submit put_roundrobin put_loop put_nowait close_writer take change is_full
Steps-ordered_example = Steps-ordered {n = 2} 4 (
    by_end 0 (
      by_take 0 (
        by_close (
          by_submit {t = waiting (some 1 ∷ some 2 ∷ [])} 3
            (by_submit {t = waiting (some 1 ∷ [])} 2
              (by_submit {t = waiting []} 1 (by_open true none_yet) refl) refl)
            refl))))

messages_run : messages ended ≡ 2 ∷ 3 ∷ []
messages_run = refl
