-- ===== src/Tests/Grpc.antt =====
-- Signals over gRPC.
use common_core.Base.{ℕ, String, ◌≡◌, refl, true, false, none, some, List, [], ◌∷◌, any}
use common_core.Base.Dict.{get, put}
use common_core.RoundRobin.{is_full, put_nowait}
use common_core.Signals.Message.{
  Message, Descriptor, addition, signal_name, signal_names, mapping_controls, contains,
}
use common_core.Signals.Store
use common_core.Signals.Store.{Filter, callback}
use common_core.Signals.Caching
use common_core.Signals.Caching.{CachingStore, empty_cache, emit_each, update_cache}
use common_core.Signals.Caching.History.{cached}
use common_core.Grpc.Client.{worker}
use common_core.Grpc.Watch.{
  Watcher, watch, emit, yield_next, filtered_names, follow, put_messages, messages_for,
}
use common_core.Grpc.Mirrored.{at_first, emitted, yielded, all_read, worker-mirrors}

abbrev user : String → ℕ → Message ℕ
user key value = record { selected = some ("user", value); mapping = some (addition, key) }

abbrev descriptor : Descriptor
descriptor = record { signals = ("user", 8) ∷ ("door", 9) ∷ []; others = "mapping_key" ∷ [] }

abbrev everything : Filter
everything = record { polarity = false; indices = [] }

abbrev history : List (Message ℕ)
history = user "ann" 1 ∷ []

abbrev server : CachingStore ℕ
server = record {
  base = record Store.empty_store { complete = true };
  cache = ("user", (some "ann", user "ann" 1) ∷ []) ∷ [];
}

abbrev watched : Watcher ℕ
watched = record {
  store = record {
    base = record {
      slots = ("user", callback 5 ∷ []) ∷ ("door", callback 5 ∷ []) ∷ [];
      complete = true;
      calls = (callback 5, user "ann" 1) ∷ [];
    };
    cache = server.cache;
  };
  queue = record {
    maxsize = 256;
    items = user "ann" 1 ∷ record { selected = none; mapping = none } ∷ [];
  };
  dropped = [];
  yielded = [];
}

-- Bob arrives while Ann and the end of the cached messages wait.
abbrev read : Watcher ℕ
read = yield_next (yield_next (yield_next (emit 5 (user "bob" 2) watched)))

worker-mirrors_example :
    cached "user" (some "bob") (worker (all_read read.yielded) empty_cache)
    ≡ cached "user" (some "bob") read.store
unfolding watch filtered_names follow put_messages messages_for put_nowait is_full emit yield_next
    Caching.connect_signal Caching.emit Caching.replay_found Store.connect_signal Store.emit
    Caching.replay emit_each update_cache signal_name mapping_controls signal_names contains any get
    put
worker-mirrors_example =
    worker-mirrors descriptor (λ s. s) 5 256 everything history server refl refl (λ name. refl) refl
      refl (yielded (yielded (yielded (emitted (user "bob" 2) at_first)))) refl refl "user"
      (some "bob") refl

bob_run : cached "user" (some "bob") read.store ≡ some (user "bob" 2)
unfolding emit follow yield_next get put Caching.emit Store.emit mapping_controls signal_name
    put_nowait
bob_run = refl
