-- ===== src/Zmq/Address/RoundTrip.antt =====
-- Addresses taken apart again.
use common_core.Base.Text.{Text}
use common_core.Base.{
  ℕ, ◌≡◌, refl, sym, ap, ◌∙◌, ◌≢◌, ◌⊎◌, inl, inr, Bool, true, false, Option, none, some, [], ◌∷◌,
  ◌++◌, nat_eq, take_while, drop_while, stops, take_while-append, drop_while-append, take_while-All,
  All, ◌&&◌, if◌then◌else◌, arith, Bool-cases,
}
use mathlib.Core.List.{append-nil, append_assoc}
use common_core.Base.Result.{ok}
use common_core.Base.Decimal.{is_digit, digits, read_digits-digits, digits-AllDigits, digits-ne-nil}
use common_core.Zmq.Address.{
  is_word, is_bracketed, is_host, separator, has_scheme, cut_scheme, is_closed, cut_host, is_empty,
  cut_port, split_address, Component, of_text, of_port, join_address, Key, scheme_key, port_key,
  tcp, or_setting, port_or_setting, target_of, real_address,
}

abbrev AllWords : Text → Type 0
AllWords t = All (λ c. is_word c ≡ true) t

-- A host: "*", names, or an address in brackets
abbrev pub IsHost : Text → Type 0
IsHost h =
    (h ≡ b'*' ∷ [])
    ⊎ All (λ c. is_host c ≡ true) h
    ⊎ ((t : Text) × (h ≡ b'[' ∷ (t ++ b']' ∷ [])) × All (λ c. is_bracketed c ≡ true) t)

-- The text of a port in an address
abbrev pub port_text : ℕ → Text
port_text n = if nat_eq n 0 then [] else b':' ∷ digits n

is_empty_of_ne : (t : Text) → t ≢ [] → is_empty t ≡ false
is_empty_of_ne [] h = absurd (h refl)
is_empty_of_ne (c ∷ cs) h = refl

cut_port-port_text : (n : ℕ) → n ≢ 0 → cut_port (port_text n) ≡ some n
unfolding cut_port
cut_port-port_text n h =
    let taken : take_while is_digit (digits n) ≡ digits n =
      ap (take_while is_digit) (sym (append-nil (digits n)))
      ∙ take_while-append is_digit (digits n) [] (digits-AllDigits n) refl in
    let shown : nat_eq n 0 ≡ false = ground arith in
    let full : is_empty (digits n) ≡ false = is_empty_of_ne (digits n) (digits-ne-nil n) in
    rw (shown, cut_port, taken, full, read_digits-digits n) refl

cut_scheme-append : (s t : Text) → AllWords s → cut_scheme (s ++ (separator ++ t)) ≡ (s, t)
unfolding cut_scheme
cut_scheme-append s t a =
    rw
      (
        cut_scheme,
        drop_while-append is_word s (separator ++ t) a refl,
        take_while-append is_word s (separator ++ t) a refl,
      )
      refl

-- What follows a host: nothing, or a colon
abbrev EndsHost : Text → Type 0
EndsHost t = (t ≡ []) ⊎ ((u : Text) × (t ≡ b':' ∷ u))

stops-EndsHost : (p : ℕ → Bool) (t : Text) → p b':' ≡ false → EndsHost t → stops p t ≡ true
stops-EndsHost p t h (inl e) = rw e refl
stops-EndsHost p t h (inr (u, e)) = rw (e, h) refl

cut_host-append_nil : (t : Text) → EndsHost t → cut_host t ≡ ([], t)
unfolding cut_host take_while drop_while
cut_host-append_nil t (inl e) = rw e refl
cut_host-append_nil t (inr (u, e)) = rw e refl

cut_host-append_names :
    (c : ℕ) (cs t : Text)
    → All (λ x. is_host x ≡ true) (c ∷ cs)
    → EndsHost t
    → cut_host (c ∷ (cs ++ t)) ≡ (c ∷ cs, t)
unfolding cut_host
cut_host-append_names c cs t a e =
    let no_star : nat_eq c b'*' ≡ false = ground (arith, a.0) in
    let no_bracket : nat_eq c b'[' ≡ false = ground (arith, a.0) in
    let ends = stops-EndsHost is_host t refl e in
    rw
      (
        cut_host,
        no_star,
        no_bracket,
        take_while-append is_host (c ∷ cs) t a ends,
        drop_while-append is_host (c ∷ cs) t a ends,
      )
      refl

cut_host-append_brackets :
    (cs t : Text)
    → All (λ x. is_bracketed x ≡ true) cs
    → cut_host (b'[' ∷ (cs ++ b']' ∷ t)) ≡ (b'[' ∷ (cs ++ b']' ∷ []), t)
unfolding cut_host
cut_host-append_brackets cs t a =
    rw
      (
        cut_host,
        drop_while-append is_bracketed cs (b']' ∷ t) a refl,
        take_while-append is_bracketed cs (b']' ∷ t) a refl,
      )
      refl

cut_host-append : (h t : Text) → IsHost h → EndsHost t → cut_host (h ++ t) ≡ (h, t)
unfolding cut_host
cut_host-append h t (inl p) e = rw p refl
cut_host-append [] t (inr (inl a)) e = cut_host-append_nil t e
cut_host-append (c ∷ cs) t (inr (inl a)) e = cut_host-append_names c cs t a e
cut_host-append h t (inr (inr (cs, p, a))) e =
    rw (p, append_assoc cs (b']' ∷ []) t) (cut_host-append_brackets cs t a)

split_address-whole :
    (s h : Text) (n : ℕ)
    → AllWords s
    → IsHost h
    → n ≢ 0
    → split_address ((s ++ separator) ++ (h ++ port_text n)) ≡ (s, h, some n)
unfolding split_address
split_address-whole s h n a i z =
    rw
      (
        split_address,
        append_assoc s separator (h ++ port_text n),
        cut_scheme-append s (h ++ port_text n) a,
        cut_host-append h (port_text n) i (ends n),
        cut_port-port_text n z,
      )
      refl
  where
    ends : (k : ℕ) → EndsHost (port_text k)
    ends k = elim (Bool-cases (nat_eq k 0)) [
      | inl p ↦ rw p (inl refl)
      | inr p ↦ rw p (inr (digits k, refl))
    ]

cut_scheme-AllWords : (t : Text) → AllWords (cut_scheme t).0
unfolding cut_scheme
cut_scheme-AllWords t = elim (Bool-cases (has_scheme t)) [
  | inl p ↦ rw (cut_scheme, p) (take_while-All is_word t)
  | inr p ↦ rw (cut_scheme, p) tt
]

cut_host-IsHost : (t : Text) → IsHost (cut_host t).0
unfolding cut_host
cut_host-IsHost [] = inr (inl tt)
cut_host-IsHost (c ∷ cs) = elim (Bool-cases (nat_eq c b'*')) [
  | inl p ↦ rw (cut_host, p) (inl (ground arith))
  | inr p ↦ elim (Bool-cases (nat_eq c b'[' && is_closed cs)) [
    | inl q ↦
        rw (cut_host, p, q)
          (inr (inr (take_while is_bracketed cs, ground arith, take_while-All is_bracketed cs)))
    | inr q ↦ rw (cut_host, p, q) (inr (inl (take_while-All is_host (c ∷ cs))))
  ]
]

-- What the settings of a channel give for an address that leaves out its components: a scheme of
-- letters, digits and underscores, a host, and a port other than zero.
pub record GiveAddress (setting : Key → Component → Component) (key : Key) (host : Text)
    : Type 0 where
  pub port : ℕ
  pub scheme_true : (setting scheme_key (of_text tcp)).is_true ≡ true
  pub scheme_words : AllWords (setting scheme_key (of_text tcp)).text
  pub host_string : (setting key (of_text host)).is_string ≡ true
  pub host_valid : IsHost (setting key (of_text host)).text
  pub port_true : (setting port_key (of_port 5555)).is_true ≡ true
  pub port_text_lem : (setting port_key (of_port 5555)).text ≡ digits port
  pub port_positive : port ≢ 0

joined :
    (scheme name port : Component) (n : ℕ) (out : Text)
    → scheme.is_true ≡ true
    → AllWords scheme.text
    → name.is_string ≡ true
    → IsHost name.text
    → port.is_true ≡ true
    → port.text ≡ digits n
    → n ≢ 0
    → join_address scheme name port ≡ ok out
    → split_address out ≡ (scheme.text, name.text, some n)
unfolding join_address
joined scheme name port n out st sw ns nh pt pd z e =
    let shown : nat_eq n 0 ≡ false = ground arith in
    let full : Text = (scheme.text ++ separator) ++ (name.text ++ b':' ∷ port.text) in
    let made : join_address scheme name port ≡ ok full = rw (join_address, ns, st, pt) refl in
    let same : full ≡ out = cc in
    let whole : (scheme.text ++ separator) ++ (name.text ++ port_text n) ≡ out =
      rw (shown, ← pd) same in
    rw (← whole) (split_address-whole scheme.text name.text n sw nh z)

module _ (setting : Key → Component → Component) (key : Key) (host : Text)
    (g : GiveAddress setting key host) where
  or_scheme :
      (t : Text)
      → AllWords t
      → ((or_setting setting scheme_key (of_text tcp) t).is_true ≡ true)
        × AllWords (or_setting setting scheme_key (of_text tcp) t).text
  or_scheme [] a = (g.scheme_true, g.scheme_words)
  or_scheme (c ∷ cs) a = (refl, a)

  or_host :
      (t : Text)
      → IsHost t
      → ((or_setting setting key (of_text host) t).is_string ≡ true)
        × IsHost (or_setting setting key (of_text host) t).text
  or_host [] i = (g.host_string, g.host_valid)
  or_host (c ∷ cs) i = (refl, i)

  abbrev pub or_port : Option ℕ → ℕ
  or_port none = g.port
  or_port (some n) = n

  or_port_text :
      (o : Option ℕ)
      → o ≢ some 0
      → ((port_or_setting setting o).is_true ≡ true)
        × ((port_or_setting setting o).text ≡ digits (or_port o))
        × (or_port o ≢ 0)
  or_port_text none z = (g.port_true, g.port_text_lem, g.port_positive)
  or_port_text (some n) z = let shown : n ≢ 0 = λ e. z (ap some e) in (ground arith, refl, shown)

  -- A sanitized address is complete: taken apart again, it has the scheme, the host and the port of
  -- the address that was given, and those of the settings for what that left out. The settings are
  -- taken to give a scheme of letters, digits and underscores, a host and a port other than zero, and
  -- the given port not to be zero.
  pub split-real_address :
      (provided initial : Option Text) (out : Text)
      → (split_address (target_of provided initial)).2 ≢ some 0
      → real_address setting key host provided initial ≡ ok out
      → let (scheme, name, port) = split_address (target_of provided initial) in
        split_address out ≡ (
          (or_setting setting scheme_key (of_text tcp) scheme).text,
          (or_setting setting key (of_text host) name).text,
          some (or_port port),
        )
  unfolding real_address
  split-real_address provided initial out z e =
      let (scheme, behind) = cut_scheme (target_of provided initial) in
      let (name, rest) = cut_host behind in
      let s = or_scheme scheme (cut_scheme-AllWords (target_of provided initial)) in
      let h = or_host name (cut_host-IsHost behind) in
      let p = or_port_text (cut_port rest) z in
      joined (or_setting setting scheme_key (of_text tcp) scheme)
        (or_setting setting key (of_text host) name) (port_or_setting setting (cut_port rest))
        (or_port (cut_port rest)) out s.0 s.1 h.0 h.1 p.0 p.1 p.2 e
