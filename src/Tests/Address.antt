-- ===== src/Tests/Address.antt =====
-- Addresses of src/core/python/messaging/zmq/basic/endpoint.py.
use common_core.Base.Text.{Text}
use common_core.Base.{◌≡◌, refl, inl, none, some, [], ◌∷◌, take_while, drop_while, arith}
use common_core.Base.Decimal.{digits, read_digits}
use common_core.Zmq.Address.{Component, Key, split_address, listen_key, real_address}
use common_core.Zmq.Address.RoundTrip.{GiveAddress, split-real_address}

-- tcp://[a:1]:80
abbrev sample : Text
sample =
    b't' ∷ b'c' ∷ b'p' ∷ b':' ∷ b'/' ∷ b'/' ∷ b'[' ∷ b'a' ∷ b':' ∷ b'1' ∷ b']' ∷ b':' ∷ b'8' ∷ b'0'
    ∷ []

split_run :
    split_address sample ≡ (b't' ∷ b'c' ∷ b'p' ∷ [], b'[' ∷ b'a' ∷ b':' ∷ b'1' ∷ b']' ∷ [], some 80)
unfolding split_address take_while drop_while read_digits
split_run = refl

-- No settings: the defaults are used.
abbrev pub no_settings : Key → Component → Component
no_settings key default = default

no_settings-GiveAddress : GiveAddress no_settings listen_key (b'*' ∷ [])
no_settings-GiveAddress = record {
  port = 5555;
  scheme_true = refl;
  scheme_words = (refl, (refl, (refl, tt)));
  host_string = refl;
  host_valid = inl refl;
  port_true = refl;
  port_text_lem = refl;
  port_positive = λ e. omega arith;
}

-- ":80"
abbrev port_only : Text
port_only = b':' ∷ b'8' ∷ b'0' ∷ []

-- "tcp://*:80"
abbrev completed : Text
completed = b't' ∷ b'c' ∷ b'p' ∷ b':' ∷ b'/' ∷ b'/' ∷ b'*' ∷ b':' ∷ b'8' ∷ b'0' ∷ []

split-real_address_example : split_address completed ≡ (b't' ∷ b'c' ∷ b'p' ∷ [], b'*' ∷ [], some 80)
unfolding real_address take_while drop_while read_digits digits
split-real_address_example =
    split-real_address no_settings listen_key (b'*' ∷ []) no_settings-GiveAddress (some port_only)
      none completed (λ e. cc) refl
