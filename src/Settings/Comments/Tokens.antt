-- ===== src/Settings/Comments/Tokens.antt =====
-- What a JSON text with comments is made of, apart from the code that removes them.
use common_core.Base.Text.{Text, backslash, begins, newline}
use common_core.Base.{
  ℕ, ◌≡◌, Bool, true, false, ◌&&◌, not, List, [], ◌∷◌, ◌++◌, nat_eq, All, if◌then◌else◌,
}
use common_core.Settings.Comments.{single_quote}

-- A character of a string, or an escape
pub data Piece : Type 0 where
  literal escape : ℕ → Piece

pub data Token : Type 0 where
  plain : ℕ → Token
  string : ℕ → List Piece → Token
  slashes hash block : Text → Token

abbrev pub render_pieces : List Piece → Text
render_pieces [] = []
render_pieces (literal c ∷ ps) = c ∷ render_pieces ps
render_pieces (escape c ∷ ps) = backslash ∷ c ∷ render_pieces ps

abbrev pub render_token : Token → Text
render_token (plain c) = c ∷ []
render_token (string q ps) = q ∷ (render_pieces ps ++ q ∷ [])
render_token (slashes t) = b'/' ∷ b'/' ∷ t
render_token (hash t) = b'#' ∷ t
render_token (block t) = b'/' ∷ b'*' ∷ (t ++ b'*' ∷ b'/' ∷ [])

abbrev pub render : List Token → Text
render [] = []
render (t ∷ ts) = render_token t ++ render ts

-- The text without its comments
abbrev pub kept_token : Token → Text
kept_token (plain c) = c ∷ []
kept_token (string q ps) = render_token (string q ps)
kept_token comment = []

abbrev pub kept : List Token → Text
kept [] = []
kept (t ∷ ts) = kept_token t ++ kept ts

-- A character that stands in a string as itself
abbrev pub IsPiece : ℕ → Piece → Type 0
IsPiece q (literal c) = (nat_eq c backslash ≡ false) × (nat_eq c q ≡ false)
IsPiece q (escape c) = Unit

abbrev pub is_quote : ℕ → Bool
is_quote c = if nat_eq c single_quote then true else nat_eq c b'"'

-- No line end
abbrev pub OneLine : Text → Type 0
OneLine t = All (λ c. not (nat_eq c newline) ≡ true) t

abbrev pub EndsLine : Text → Type 0
EndsLine [] = Unit
EndsLine (c ∷ cs) = c ≡ newline

-- No "*/"
abbrev pub closes : Text → Bool
closes [] = false
closes (c ∷ cs) = let rest = closes cs in if nat_eq c b'*' && begins b'/' cs then true else rest

-- A token where `rest` follows: strings are closed, line comments end with the line, and a character
-- outside them begins neither.
abbrev pub IsToken : Token → Text → Type 0
IsToken (plain c) rest =
    (is_quote c ≡ false)
    × (nat_eq c b'#' ≡ false)
    × ((nat_eq c b'/' && begins b'/' rest) ≡ false)
    × ((nat_eq c b'/' && begins b'*' rest) ≡ false)
IsToken (string q ps) rest = (is_quote q ≡ true) × All (IsPiece q) ps
IsToken (slashes t) rest = OneLine t × EndsLine rest
IsToken (hash t) rest = OneLine t × EndsLine rest
IsToken (block t) rest = closes t ≡ false

abbrev pub AreTokens : List Token → Type 0
AreTokens [] = Unit
AreTokens (t ∷ ts) = IsToken t (render ts) × AreTokens ts
