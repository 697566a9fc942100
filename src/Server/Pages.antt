-- ===== src/Server/Pages.antt =====
-- The pages of server/http.go: `cursorOffset`, `pageSize` and `paginate`.
pub mod Walk
use vessica_knowledge_server.Base.{
  ℕ, zero, suc, ◌+◌, ◌-◌, String, Bool, Option, none, some, List, [], ltb, length, take, drop,
  if◌then◌else◌, ℤ, pos, negsuc, from_int,
}

-- What the handlers use of Go's `encoding/base64` and `strconv`: `RawURLEncoding` and decimal numbers.
-- `atoi` is the first result of `strconv.Atoi`.
pub record Codec : Type 0 where
  pub encode : String → String
  pub decode : String → Option String
  pub itoa : ℕ → String
  pub atoi : String → ℤ

-- `Page` of knowledge/models.go; an empty cursor is left out of the answer.
pub record Page (A : Type 0) : Type 0 where
  pub items : List A
  pub next_cursor : String

-- A cursor that does not decode asks for the first page.
abbrev pub offset_of : Codec → Option String → ℕ
offset_of c none = 0
offset_of c (some text) = from_int (c.atoi text)

unfoldable pub cursor_offset : Codec → String → ℕ
cursor_offset c raw = offset_of c (c.decode raw)

abbrev clamp : ℤ → ℕ
clamp (negsuc n) = 50
clamp (pos zero) = 50
clamp (pos (suc n)) = if ltb 200 (suc n) then 200 else suc n

-- `limit` is the query parameter.
unfoldable pub page_size : Codec → String → ℕ
page_size c limit = clamp (c.atoi limit)

unfoldable pub paginate : {A : Type 0} → Codec → List A → String → String → Page A
unfolding cursor_offset page_size
paginate c items cursor limit =
    let n = length items in
    let asked = cursor_offset c cursor in
    let offset = if ltb n asked then n else asked in
    let sum = offset + page_size c limit in
    let end = if ltb n sum then n else sum in
    record {
      items = take (end - offset) (drop offset items);
      next_cursor = if ltb end n then c.encode (c.itoa end) else "";
    }
