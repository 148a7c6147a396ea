-- ===== src/Http.antt =====
-- What the program uses of `net/http`: requests with their headers, and the answers of `Client.Do`.
use solvela_go.Base.{
  Bytes, ℕ, ◌+◌, ◌-◌, Bool, true, ◌&&◌, ◌||◌, Option, none, some, [], ◌∷◌, leb, ◌==◌, nat_eq,
  bytes_eq, if◌then◌else◌, contains, codes, length, take,
}
use solvela_go.Maps.{Dict, insert}
use solvela_go.Errors.{Result, ok, err, foreign}

abbrev pub Headers : Type 0
Headers = Dict Bytes Bytes

is_letter : ℕ → Bool
is_letter c = leb b'a' c && leb c b'z' || leb b'A' c && leb c b'Z'

-- The bytes that may stand in a header's name.
is_token_byte : ℕ → Bool
is_token_byte c = is_letter c || leb b'0' c && leb c b'9' || contains (codes "!#$%&'*+-.^_`|~") c

to_upper : ℕ → ℕ
to_upper c = if leb b'a' c && leb c b'z' then c - 32 else c

to_lower : ℕ → ℕ
to_lower c = if leb b'A' c && leb c b'Z' then c + 32 else c

is_token : Bytes → Bool
is_token [] = true
is_token (c ∷ s) = is_token_byte c && is_token s

-- Upper case at the start and behind a dash, lower case elsewhere.
capitalise : Bool → Bytes → Bytes
capitalise first [] = []
capitalise first (c ∷ s) = (if first then to_upper c else to_lower c) ∷ capitalise (c == b'-') s

-- `http.CanonicalHeaderKey`
unfoldable pub canonical_key : Bytes → Bytes
unfolding is_letter is_token_byte is_token capitalise to_upper to_lower
canonical_key key = if is_token key then capitalise true key else key

-- `Header.Set`
unfoldable pub set_header : Bytes → Bytes → Headers → Headers
unfolding canonical_key insert
set_header key value headers = insert (canonical_key key) value headers

-- The loop over the extra headers, in the order in which it meets them.
unfoldable pub set_headers : Headers → Headers → Headers
unfolding set_header
set_headers [] headers = headers
set_headers ((key, value) ∷ extra) headers = set_headers extra (set_header key value headers)

pub record HttpRequest : Type 0 where
  pub method : Bytes
  pub url : Bytes
  pub headers : Headers
  pub body : Bytes

-- A body as it can be read: its bytes, and the error that breaks it off, if one does.
pub record Body : Type 0 where
  pub content : Bytes
  pub fault : Option Bytes

pub record HttpResponse : Type 0 where
  pub status : ℕ
  pub body : Body

-- What `Client.Do` returns. The client follows no redirect, so each call is one exchange.
pub data HttpOutcome : Type 0 where
  answered : HttpResponse → HttpOutcome
  broke : Bytes → HttpOutcome

-- `io.LimitReader`: at the limit the body ends, without an error.
unfoldable pub limited : ℕ → Body → Body
unfolding take
limited limit b =
    if leb limit (length b.content)
    then record { content = take limit b.content; fault = none }
    else b

-- `io.ReadAll`
unfoldable pub read_all : Body → Result Bytes
read_all b = elim b.fault [ none ↦ ok b.content | some why ↦ err (foreign why) ]
